-- ===== src/Output/Eviction.antt =====
-- Which streams are evicted: prism_serve/gateway/output.py.
use prism_serve.Base.{
  ℕ, ◌≤◌, String, ◌≡◌, refl, ◌∙◌, inl, inr, Bool, true, false, not, ◌&&◌, ◌||◌, some, List, [], ◌∷◌,
  ◌++◌, arith, ltb, Bool-cases, is_some, ◌==◌, nat_key, text_key, pair_key, length, filter, any,
}
use prism_serve.Base.Dict.{Dict, lookup, erase, lookup_left}
use prism_serve.Output.Buffer.{
  OutputState, OutputBuffer, evict, move_to_end, free_stream, mark_resource_free,
}

evict_bound :
    (cap : ℕ) (free : List String) (states : Dict String OutputState)
    → length (evict cap free states).0 ≤ cap
unfolding evict
evict_bound cap [] states = omega arith
evict_bound cap (x ∷ free) states = elim (Bool-cases (ltb cap (length (x ∷ free)))) [
  | inl over ↦ rw (over, evict) (evict_bound cap free (erase x states))
  | inr within ↦ rw (within, evict) (ground (arith, within))
]

evict_others :
    (cap : ℕ) (k : String) (free : List String) (states : Dict String OutputState)
    → any (λ j. k == j) free ≡ false
    → lookup k (evict cap free states).1 ≡ lookup k states
unfolding evict
evict_others cap k [] states h = refl
evict_others cap k (x ∷ free) states h = elim (Bool-cases (ltb cap (length (x ∷ free)))) [
  | inl over ↦
      rw (over, evict)
        (evict_others cap k free (erase x states) (ground (arith, h))
          ∙ lookup_left k x states (ground (arith, h)))
  | inr within ↦ rw (within, evict) refl
]

any-append : (p : String → Bool) (xs ys : List String) → any p (xs ++ ys) ≡ (any p xs || any p ys)
any-append p [] ys = refl
any-append p (x ∷ xs) ys = ground (arith, any-append p xs ys)

any-filter :
    (p q : String → Bool) (xs : List String) → any p xs ≡ false → any p (filter q xs) ≡ false
any-filter p q [] h = h
any-filter p q (x ∷ xs) h = ground (arith, any-filter p q xs)

-- A stream that is marked free, where the mark is taken, leaves at most the cap of free streams; a
-- stream that was not marked free stays as it was, unless it is the one that is marked.
pub mark_resource_free-bound :
    (req_id : String) (b : OutputBuffer) (o : OutputState)
    → lookup req_id b.states ≡ some o
    → (o.terminal || is_some o.error) ≡ true
    → let b' = (mark_resource_free req_id b).1 in
      (length b'.resource_free_terminal ≤ b.terminal_snapshot_cap)
      × ((k : String)
          → any (λ j. k == j) b.resource_free_terminal ≡ false
          → (k == req_id) ≡ false
          → lookup k b'.states ≡ lookup k b.states)
unfolding mark_resource_free free_stream move_to_end
mark_resource_free-bound req_id b o e h =
    rw (e, mark_resource_free, ended o h)
      (
        evict_bound b.terminal_snapshot_cap (move_to_end req_id b.resource_free_terminal) b.states,
        λ k out other.
            evict_others b.terminal_snapshot_cap k (move_to_end req_id b.resource_free_terminal)
              b.states (moved k out other),
      )
  where
    ended :
        (o : OutputState)
        → (o.terminal || is_some o.error) ≡ true
        → (not o.terminal && not (is_some o.error)) ≡ false
    ended o h = ground (arith, h)

    moved :
        (k : String)
        → any (λ j. k == j) b.resource_free_terminal ≡ false
        → (k == req_id) ≡ false
        → any (λ j. k == j) (move_to_end req_id b.resource_free_terminal) ≡ false
    moved k out other = ground (
      arith,
      any-append (λ j. k == j) (filter (λ j. not (j == req_id)) b.resource_free_terminal)
          (req_id ∷ []),
      any-filter (λ j. k == j) (λ j. not (j == req_id)) b.resource_free_terminal out,
      other,
    )
