-- ===== src/Prefix/Unlisting.antt =====
-- Removals leave a location under each key that an owner lists: prism_serve/router/prefix_index.py.
use prism_serve.Base.{
  ℕ, ◌≡◌, refl, sym, ap, subst, ◌∙◌, inl, inr, Bool, true, false, not, ◌||◌, List, [], ◌∷◌, arith,
  if◌then◌else◌, Bool-cases, get_or, ◌==◌, nat_key, text_key, pair_key, triple_key, pair_beq_iff,
  filter, any, Among, filter-Among, Among-filter,
}
use prism_serve.Base.Dict.{lookup}
use prism_serve.Prefix.Index.{
  IndexKey, Owner, CacheLocation, PrefixIndex, owner_of, locations_at, keys_of, set_or_pop,
  is_owned, remove_owner_at, remove_keys, forget_owner, remove_owner, discard_key, remove_block,
}
use prism_serve.Prefix.Entries.{read_same, read_other, gone, left, set_or_pop_locations}
use prism_serve.Prefix.Backed.{HasLocation, IsBacked}

-- A location that passes the filter of an entry stays.
kept_location :
    (test : CacheLocation → Bool) (j k : IndexKey) (l : CacheLocation) (p : PrefixIndex)
    → Among l (locations_at j p)
    → ((j == k) ≡ true → test l ≡ true)
    → Among l (get_or (lookup j (set_or_pop k (filter test (locations_at k p)) p.index)) [])
kept_location test j k l p n t = elim (Bool-cases (j == k)) [
  | inl same ↦
      subst (Among l)
        (sym (
          set_or_pop_locations j k _ p.index
          ∙ ap (λ (b : Bool). if b then filter test (locations_at k p) else locations_at j p) same))
        (filter-Among test l (locations_at k p) (t same)
          (subst (λ i. Among l (locations_at i p)) ((pair_beq_iff j k).0 same) n))
  | inr other ↦
      subst (Among l)
        (sym (
          set_or_pop_locations j k _ p.index
          ∙ ap (λ (b : Bool). if b then filter test (locations_at k p) else locations_at j p)
              other))
        n
]

not_owned :
    (o o' : Owner) (l : CacheLocation)
    → owner_of l ≡ o'
    → (o' == o) ≡ false
    → not (is_owned o l) ≡ true
unfolding is_owned
not_owned o o' l e h = ap (λ x. not (x == o)) e ∙ ap not h

removed_keeps :
    (o : Owner) (ks : List IndexKey) (p : PrefixIndex) (j : IndexKey) (l : CacheLocation)
    → not (is_owned o l) ≡ true
    → Among l (locations_at j p)
    → Among l (locations_at j (remove_keys o ks p))
unfolding remove_keys remove_owner_at
removed_keeps o [] p j l h n = n
removed_keeps o (k ∷ ks) p j l h n =
    removed_keeps o ks (remove_owner_at o k p) j l h
      (kept_location (λ l. not (is_owned o l)) j k l p n (λ same. h))

pub removed-forward :
    (o : Owner) (ks : List IndexKey) (p : PrefixIndex) → (remove_keys o ks p).forward ≡ p.forward
unfolding remove_keys remove_owner_at
removed-forward o [] p = refl
removed-forward o (k ∷ ks) p = removed-forward o ks (remove_owner_at o k p)

pub remove_owner-IsBacked : (o : Owner) (p : PrefixIndex) → IsBacked p → IsBacked (remove_owner o p)
unfolding remove_owner forget_owner
remove_owner-IsBacked o p b o' k n =
    let q = remove_keys o (keys_of o p) p in
    elim (Bool-cases (o' == o)) [
      | inl same ↦ absurd (subst (Among k) (ap (λ x. get_or x []) (gone o' o q.forward same)) n)
      | inr other ↦
          let (l, at, e) = b o' k (
            subst (λ x. Among k (get_or x []))
              (left o' o q.forward other ∙ ap (lookup o') (removed-forward o (keys_of o p) p)) n) in
          (l, removed_keeps o (keys_of o p) p k l (not_owned o o' l e other) at, e)
    ]

-- One of the locations that a test finds.
found_owned :
    (o : Owner) (ls : List CacheLocation)
    → any (is_owned o) ls ≡ true
    → (l : CacheLocation) × Among l ls × (owner_of l ≡ o)
unfolding is_owned
found_owned o [] h = cc
found_owned o (x ∷ ls) h = elim (Bool-cases (owner_of x == o)) [
  | inl own ↦ (x, inl refl, (pair_beq_iff (owner_of x) o).0 own)
  | inr other ↦ let (l, n, e) = found_owned o ls (ground (arith, h, other)) in (l, inr n, e)
]

module _ (k : IndexKey) (o : Owner) (block_id : ℕ) (p : PrefixIndex) (b : IsBacked p) where
  abbrev stays : CacheLocation → Bool
  stays l = not (is_owned o l) || not (l.block_id == block_id)

  abbrev thinned : PrefixIndex
  thinned = record p { index = set_or_pop k (filter stays (locations_at k p)) p.index }

  -- Another key, or another owner, keeps its location.
  elsewhere :
      (o' : Owner) (j : IndexKey)
      → ((j == k) ≡ true → (o' == o) ≡ false)
      → Among j (keys_of o' p)
      → HasLocation o' j thinned
  elsewhere o' j ne n =
      let (l, at, e) = b o' j n in
      (
        l,
        kept_location stays j k l p at
            (λ same. ap (λ x. x || not (l.block_id == block_id)) (not_owned o o' l e (ne same))),
        e,
      )

  left_over :
      (j : IndexKey)
      → (j == k) ≡ true
      → any (is_owned o) (filter stays (locations_at k p)) ≡ true
      → HasLocation o j thinned
  left_over j same h =
      let (l, n, e) = found_owned o (filter stays (locations_at k p)) h in
      (
        l,
        subst (Among l)
            (sym (
              set_or_pop_locations j k _ p.index
              ∙ ap (λ (c : Bool). if c then filter stays (locations_at k p) else locations_at j p)
                  same))
            n,
        e,
      )

  pub some_left-IsBacked :
      any (is_owned o) (filter stays (locations_at k p)) ≡ true → IsBacked thinned
  some_left-IsBacked h o' j n = elim (Bool-cases (j == k)) [
    | inr other ↦ elsewhere o' j (λ same. absurd (ground (arith, same, other))) n
    | inl same ↦ elim (Bool-cases (o' == o)) [
      | inr other ↦ elsewhere o' j (λ _. other) n
      | inl own ↦
          subst (λ x. HasLocation x j thinned) (sym ((pair_beq_iff o' o).0 own))
            (left_over j same h)
    ]
  ]

  pub none_left-IsBacked : IsBacked (discard_key k o thinned)
  unfolding discard_key
  none_left-IsBacked o' j n = elim (Bool-cases (o' == o)) [
    | inr other ↦
        elsewhere o' j (λ _. other) (subst (Among j) (read_other o' o _ thinned.forward other) n)
    | inl own ↦
        let (m, ne) =
          Among-filter (λ i. not (i == k)) j (keys_of o thinned)
            (subst (Among j) (read_same o' o _ thinned.forward own) n) in
        elsewhere o' j (λ same. absurd (ground (arith, same, ne)))
          (subst (λ x. Among j (keys_of x p)) (sym ((pair_beq_iff o' o).0 own)) m)
  ]

  pub remove_block-IsBacked : IsBacked (remove_block k o block_id p)
  unfolding remove_block
  remove_block-IsBacked = elim (Bool-cases (any (is_owned o) (filter stays (locations_at k p)))) [
    | inl some_left ↦ rw (some_left, remove_block) (some_left-IsBacked some_left)
    | inr none_left ↦ rw (none_left, remove_block) none_left-IsBacked
  ]
