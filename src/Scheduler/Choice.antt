-- ===== src/Scheduler/Choice.antt =====
-- Which instance is picked, prism_serve/scheduler/scheduler.py.
use prism_serve.Base.{
  ℕ, ◌≤◌, String, ◌≡◌, refl, sym, ap, Bool, Option, none, some, List, [], ◌∷◌, arith, get_or,
  nat_key, text_key, pair_key, triple_key, filter,
}
use prism_serve.Base.Dict.{lookup, Distinct}
use prism_serve.Scheduler.State.{Env, PdScheduler}
use prism_serve.Scheduler.Pick.{
  max_by, min_by, prefill_candidate, join_queue, take_shortest, pick_prefill_instance,
  decode_candidate, take_slot, take_freest, pick_decode_instance,
}
use prism_serve.Scheduler.Leases.{take_back}
use prism_serve.Scheduler.Best.{
  Chosen, nothing-Chosen, best-Chosen, best-lookup, max_by_lem, min_by_lem,
}
use prism_serve.Scheduler.Eligible.{IsEligible, Picked, Chosen-Picked, candidate-IsEligible}

take_back_known :
    (i : String) (n : ℕ) (s : PdScheduler)
    → lookup i s.decode_free_slots ≡ some n
    → take_back i s ≡ take_slot i n s
unfolding take_back take_slot
take_back_known i n s h = ground (arith, h)

take_freest_lem :
    (candidate : String × ℕ → Bool) (s : PdScheduler) (xs : List (String × ℕ))
    → Distinct s.decode_free_slots
    → filter candidate s.decode_free_slots ≡ xs
    → Chosen candidate (λ m n. m ≤ n) s.decode_free_slots (take_freest xs s).0
      × ((take_freest xs s).1 ≡ elim (take_freest xs s).0 [ none ↦ s | some i ↦ take_back i s ])
unfolding take_freest
take_freest_lem candidate s [] h e =
    (nothing-Chosen candidate (λ m n. m ≤ n) s.decode_free_slots h e, refl)
take_freest_lem candidate s (p ∷ ps) h e =
    let q = max_by (λ (q : String × ℕ). q.1) p ps in
    let c =
      best-Chosen candidate (λ m n. m ≤ n) s.decode_free_slots h p q ps e
        (max_by_lem (λ (q : String × ℕ). q.1) p ps) in
    (
      c,
      sym (
          take_back_known q.0 q.1 s (
            best-lookup candidate (λ m n. m ≤ n) s.decode_free_slots h p q ps e
              (max_by_lem (λ (q : String × ℕ). q.1) p ps))),
    )

pub pick_decode_best :
    (env : Env) (required_instance : Option String) (s : PdScheduler)
    → Distinct s.decode_free_slots
    → let (r, s') = pick_decode_instance env required_instance s in
      Chosen (decode_candidate env required_instance s) (λ m n. m ≤ n) s.decode_free_slots r
      × (s' ≡ elim r [ none ↦ s | some i ↦ take_back i s ])
unfolding pick_decode_instance
pick_decode_best env required_instance s h =
    take_freest_lem (decode_candidate env required_instance s) s _ h refl

-- Where the dict of free slots has no key twice: the decode instance that is picked has a slot free, is
-- routed to, has a sample of its current epoch that is not too old and below the watermark, is the
-- required one if one is required, and no other such instance has more slots free; it loses one slot
-- and nothing else changes. Where no instance is such, none is picked and nothing changes.
pub pick_decode_instance-Chosen :
    (env : Env) (required_instance : Option String) (s : PdScheduler)
    → Distinct s.decode_free_slots
    → let (r, s') = pick_decode_instance env required_instance s in
      Picked (IsEligible env required_instance s) (λ m n. m ≤ n) s.decode_free_slots r
      × (s' ≡ elim r [ none ↦ s | some i ↦ take_back i s ])
pick_decode_instance-Chosen env required_instance s h =
    let (c, e) = pick_decode_best env required_instance s h in
    (
      Chosen-Picked (decode_candidate env required_instance s) _ _ s.decode_free_slots _
          (candidate-IsEligible env required_instance s) c,
      e,
    )

-- An instance whose queue is one longer, with its load read from the table.
abbrev pub join : String → PdScheduler → PdScheduler
join i s = join_queue i (get_or (lookup i s.prefill_load) 0) s

take_shortest_lem :
    (candidate : String × ℕ → Bool) (s : PdScheduler) (xs : List (String × ℕ))
    → Distinct s.prefill_load
    → filter candidate s.prefill_load ≡ xs
    → Chosen candidate (λ m n. n ≤ m) s.prefill_load (take_shortest xs s).0
      × ((take_shortest xs s).1 ≡ elim (take_shortest xs s).0 [ none ↦ s | some i ↦ join i s ])
unfolding take_shortest
take_shortest_lem candidate s [] h e =
    (nothing-Chosen candidate (λ m n. n ≤ m) s.prefill_load h e, refl)
take_shortest_lem candidate s (p ∷ ps) h e =
    let q = min_by (λ (q : String × ℕ). q.1) p ps in
    let c =
      best-Chosen candidate (λ m n. n ≤ m) s.prefill_load h p q ps e
        (min_by_lem (λ (q : String × ℕ). q.1) p ps) in
    (
      c,
      ap (λ o. join_queue q.0 (get_or o 0) s)
          (sym (
            best-lookup candidate (λ m n. n ≤ m) s.prefill_load h p q ps e
              (min_by_lem (λ (q : String × ℕ). q.1) p ps))),
    )

pub pick_prefill_best :
    (env : Env) (required_instance : Option String) (s : PdScheduler)
    → Distinct s.prefill_load
    → let (r, s') = pick_prefill_instance env required_instance s in
      Chosen (prefill_candidate env required_instance) (λ m n. n ≤ m) s.prefill_load r
      × (s' ≡ elim r [ none ↦ s | some i ↦ join i s ])
unfolding pick_prefill_instance
pick_prefill_best env required_instance s h =
    take_shortest_lem (prefill_candidate env required_instance) s _ h refl
