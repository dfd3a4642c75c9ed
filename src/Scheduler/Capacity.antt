-- ===== src/Scheduler/Capacity.antt =====
-- No slot is lost or made by the calls on leases: prism_serve/scheduler/scheduler.py.
use prism_serve.Base.{
  ℕ, ◌+◌, ◌≤◌, min, String, ◌≡◌, sym, ap, ◌∙◌, inl, inr, false, Option, none, some, arith,
  if◌then◌else◌, Bool-cases, Option-cases, get_or, ◌==◌, nat_key, text_key, pair_key, str_eq_iff,
}
use prism_serve.Base.Dict.{
  lookup, insert, lookup-insert, sum_by, sum_by-insert_new, sum_by-insert_old, sum_by_ge,
}
use prism_serve.Scheduler.State.{released, DecodeSlotLease, PdScheduler}
use prism_serve.Scheduler.Leases.{code, same, put_lease, give_back, end_lease}

-- 1 for a lease that holds a slot of the instance.
abbrev pub occupies : String → DecodeSlotLease → ℕ
occupies i l = if l.instance_id == i then (if same l.state released then 0 else 1) else 0

abbrev pub live : String → PdScheduler → ℕ
live i s = sum_by (occupies i) s.slot_leases

-- The free slots of a decode instance and the leases on it make up its maximum.
pub record Conserved (i : String) (s : PdScheduler) : Type 0 where
  pub all_counted :
      (n : ℕ)
      → lookup i s.decode_free_slots ≡ some n
      → n + live i s ≡ get_or (lookup i s.decode_max_slots) 0

module _ (i op : String) (l : DecodeSlotLease) (s : PdScheduler) where
  put_old :
      (l' : DecodeSlotLease)
      → lookup op s.slot_leases ≡ some l'
      → live i (put_lease op l s) + occupies i l' ≡ live i s + occupies i l
  unfolding put_lease
  put_old l' e = sum_by-insert_old (occupies i) op l l' s.slot_leases e

  pub put_new : lookup op s.slot_leases ≡ none → live i (put_lease op l s) ≡ live i s + occupies i l
  unfolding put_lease
  put_new e = sum_by-insert_new (occupies i) op l s.slot_leases e

  -- A lease that is rewritten and holds as much as before.
  pub rewrite-Conserved :
      (l' : DecodeSlotLease)
      → lookup op s.slot_leases ≡ some l'
      → occupies i l ≡ occupies i l'
      → Conserved i s
      → Conserved i (put_lease op l s)
  unfolding put_lease
  rewrite-Conserved l' e o v = record {
    all_counted = λ n h. omega (arith, put_old l' e, o, v.all_counted n h);
  }

pub live_ge :
    (i op : String) (l : DecodeSlotLease) (s : PdScheduler)
    → lookup op s.slot_leases ≡ some l
    → occupies i l ≤ live i s
live_ge i op l s e = sum_by_ge (occupies i) op l s.slot_leases e

module _ (i op : String) (l : DecodeSlotLease) (c : Option String) (s : PdScheduler)
    (e : lookup op s.slot_leases ≡ some l) (held : same l.state released ≡ false)
    (v : Conserved i s) where
  abbrev pub ended : DecodeSlotLease
  ended = record l { state = released; release_cleanup_id = c }

  one_less : live i (put_lease op ended s) + occupies i l ≡ live i s
  unfolding code
  one_less = ground (arith, put_old i op ended s l e)

  -- The free slots of the instance are counted up by one, within the maximum, or stay as they were
  -- where it is full; the lease is over.
  pub set_free-Conserved :
      (f k : ℕ)
      → lookup l.instance_id s.decode_free_slots ≡ some f
      → (f + 1 ≤ get_or (lookup l.instance_id s.decode_max_slots) 0 → k ≡ f + 1)
      → (n : ℕ) → lookup i (insert l.instance_id k s.decode_free_slots) ≡ some n
      → n + live i (put_lease op ended s) ≡ get_or (lookup i s.decode_max_slots) 0
  set_free-Conserved f k g up n h = elim (Bool-cases (l.instance_id == i)) [
    | inl same_i ↦
        let at_i = (str_eq_iff l.instance_id i).0 same_i in
        ground (
          arith,
          h,
          one_less,
          live_ge i op l s e,
          held,
          same_i,
          up,
          v.all_counted f (ap (λ j. lookup j s.decode_free_slots) (sym at_i) ∙ g),
          ap (λ j. get_or (lookup j s.decode_max_slots) 0) at_i,
          lookup-insert i l.instance_id k s.decode_free_slots,
          str_eq_iff i l.instance_id,
          at_i,
        )
    | inr other ↦ ground (
      arith,
      h,
      one_less,
      other,
      v.all_counted n,
      lookup-insert i l.instance_id k s.decode_free_slots,
      str_eq_iff i l.instance_id,
      str_eq_iff l.instance_id i,
    )
  ]

  pub unknown-Conserved :
      lookup l.instance_id s.decode_free_slots ≡ none
      → (n : ℕ) → lookup i s.decode_free_slots ≡ some n
      → n + live i (put_lease op ended s) ≡ get_or (lookup i s.decode_max_slots) 0
  unknown-Conserved g n h = ground (
    arith,
    h,
    g,
    one_less,
    v.all_counted n h,
    str_eq_iff l.instance_id i,
    ap (λ j. lookup j s.decode_free_slots) {x = l.instance_id} {y = i},
  )

  pub end_lease-Conserved : Conserved i (end_lease op l c s)
  unfolding end_lease give_back put_lease
  end_lease-Conserved = elim (Option-cases (lookup l.instance_id s.decode_free_slots)) [
    | inl g ↦ rw (g, end_lease, give_back) (record { all_counted = unknown-Conserved g })
    | inr (f, g) ↦
        rw (g, end_lease, give_back)
          (record {
            all_counted =
                set_free-Conserved f
                  (min (get_or (lookup l.instance_id s.decode_max_slots) 0) (f + 1)) g
                  (λ b. omega (arith, b));
          })
  ]
