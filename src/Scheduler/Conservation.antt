-- ===== src/Scheduler/Conservation.antt =====
-- Each call on leases keeps the count of slots: prism_serve/scheduler/scheduler.py.
use prism_serve.Base.{
  ℕ, ◌+◌, ◌-◌, String, ◌≡◌, refl, sym, ap, subst, ◌∙◌, inl, inr, Bool, true, false, Option, none,
  some, arith, leb, if◌then◌else◌, Bool-cases, Option-cases, get_or, ◌==◌, nat_key, text_key,
  pair_key, str_eq_iff,
}
use prism_serve.Base.Dict.{lookup, lookup-insert, sum_by-insert_new}
use prism_serve.Scheduler.State.{
  reserved, active, quarantined, released, DecodeSlotLease, Env, PdScheduler,
}
use prism_serve.Scheduler.Leases.{
  code, same, put_lease, take_back, new_lease, reserve_decode_slot, commit_decode_slot, end_lease,
  release_decode_slot, quarantine_decode_slot, release_quarantined_decode_slot,
}
use prism_serve.Scheduler.Feedback.{free_one, on_decode_finished}
use prism_serve.Scheduler.Capacity.{
  occupies, Conserved, unknown-Conserved, set_free-Conserved, rewrite-Conserved, live_ge,
  set_free-Conserved, end_lease-Conserved,
}

-- For every decode instance, the free slots and the leases that hold a slot make up the maximum.
pub record AllConserved (s : PdScheduler) : Type 0 where
  pub for_each : (i : String) → Conserved i s

module _ (s : PdScheduler) (v : AllConserved s) where
  pub end_lease-AllConserved :
      (op : String) (l : DecodeSlotLease) (c : Option String)
      → lookup op s.slot_leases ≡ some l
      → same l.state released ≡ false
      → AllConserved (end_lease op l c s)
  end_lease-AllConserved op l c e held = record {
    for_each = λ i. end_lease-Conserved i op l c s e held (v.for_each i);
  }

  -- A lease in another state that holds its slot all the same.
  pub state-AllConserved :
      (op : String) (l l' : DecodeSlotLease)
      → lookup op s.slot_leases ≡ some l
      → l'.instance_id ≡ l.instance_id
      → same l.state released ≡ false
      → same l'.state released ≡ false
      → AllConserved (put_lease op l' s)
  unfolding code
  state-AllConserved op l l' e at held held' = record {
    for_each = λ i.
        rewrite-Conserved i op l' s l e
          (ap (λ (b : Bool). if l'.instance_id == i then (if b then 0 else 1) else 0)
              (held' ∙ sym held)
            ∙ ap (λ j. if j == i then (if same l.state released then 0 else 1) else 0) at)
          (v.for_each i);
  }

  pub commit-AllConserved : (op : String) → AllConserved (commit_decode_slot op s).1
  unfolding commit_decode_slot code
  commit-AllConserved op = elim (Option-cases (lookup op s.slot_leases)) [
    | inl e ↦ rw (e, commit_decode_slot) v
    | inr (l, e) ↦ elim (Bool-cases (same l.state reserved)) [
      | inl r ↦
          rw (e, r, commit_decode_slot)
            (state-AllConserved op l (record l { state = active }) e refl (ground (arith, r)) refl)
      | inr r ↦ rw (e, r, commit_decode_slot) v
    ]
  ]

  pub quarantine-AllConserved : (op : String) → AllConserved (quarantine_decode_slot op s).1
  unfolding quarantine_decode_slot code
  quarantine-AllConserved op = elim (Option-cases (lookup op s.slot_leases)) [
    | inl e ↦ rw (e, quarantine_decode_slot) v
    | inr (l, e) ↦ elim (Bool-cases (same l.state released)) [
      | inl r ↦ rw (e, r, quarantine_decode_slot) v
      | inr r ↦
          rw (e, r, quarantine_decode_slot)
            (state-AllConserved op l (record l { state = quarantined }) e refl r refl)
    ]
  ]

  pub release-AllConserved : (op : String) → AllConserved (release_decode_slot op s).1
  unfolding release_decode_slot
  release-AllConserved op = elim (Option-cases (lookup op s.slot_leases)) [
    | inl e ↦ rw (e, release_decode_slot) v
    | inr (l, e) ↦
        rw (e, release_decode_slot)
          (ground (arith, v, end_lease-AllConserved op l l.release_cleanup_id e))
  ]

  pub release_quarantined-AllConserved :
      (op : String) (lease_id c : Option String)
      → AllConserved (release_quarantined_decode_slot op lease_id c s).1
  unfolding release_quarantined_decode_slot
  release_quarantined-AllConserved op lease_id c = elim (Option-cases (lookup op s.slot_leases)) [
    | inl e ↦ rw (e, release_quarantined_decode_slot) v
    | inr (l, e) ↦
        rw (e, release_quarantined_decode_slot) (ground (arith, v, end_lease-AllConserved op l c e))
  ]

  pub reserved-AllConserved :
      (env : Env) (j req op : String) (f : ℕ)
      → lookup op s.slot_leases ≡ none
      → lookup j s.decode_free_slots ≡ some f
      → (f == 0) ≡ false
      → AllConserved (put_lease op (new_lease env j req op) (take_back j s))
  unfolding put_lease take_back new_lease code
  reserved-AllConserved env j req op f e g room =
      rw (g, take_back)
        (record {
          for_each = λ i. record {
            all_counted = λ n h. elim (Bool-cases (j == i)) [
              | inl same_i ↦
                  let at_i = (str_eq_iff j i).0 same_i in
                  ground (
                    arith,
                    h,
                    room,
                    same_i,
                    at_i,
                    (v.for_each i).all_counted f
                        (ap (λ k. lookup k s.decode_free_slots) (sym at_i) ∙ g),
                    lookup-insert i j (f - 1) s.decode_free_slots,
                    str_eq_iff i j,
                    sum_by-insert_new (occupies i) op (new_lease env j req op) s.slot_leases e,
                  )
              | inr other ↦ ground (
                arith,
                h,
                other,
                (v.for_each i).all_counted n,
                lookup-insert i j (f - 1) s.decode_free_slots,
                str_eq_iff i j,
                str_eq_iff j i,
                sum_by-insert_new (occupies i) op (new_lease env j req op) s.slot_leases e,
              )
            ];
          };
        })

  pub reserve-AllConserved :
      (env : Env) (j req op : String) → AllConserved (reserve_decode_slot env j req op s).1
  unfolding reserve_decode_slot
  reserve-AllConserved env j req op = elim (Option-cases (lookup op s.slot_leases)) [
    | inr (l, e) ↦ rw (e, reserve_decode_slot) (ground (arith, v))
    | inl e ↦ elim (Option-cases (lookup j s.decode_free_slots)) [
      | inl g ↦ rw (e, g, reserve_decode_slot) (ground (arith, v))
      | inr (f, g) ↦
          rw (e, g, reserve_decode_slot)
            (ground (arith, v, reserved-AllConserved env j req op f e g))
    ]
  ]

  not_full :
      (op : String) (l : DecodeSlotLease)
      → lookup op s.slot_leases ≡ some l
      → same l.state released ≡ false
      → (f : ℕ) → lookup l.instance_id s.decode_free_slots ≡ some f
      → leb (get_or (lookup l.instance_id s.decode_max_slots) 0) f ≡ true
      → ⊥
  not_full op l e held f g full = ground (
    arith,
    full,
    held,
    (v.for_each l.instance_id).all_counted f g,
    live_ge l.instance_id op l s e,
    str_eq_iff l.instance_id l.instance_id,
  )

  -- The lease of a decode that is finished: its slot is free, unless the instance is gone.
  pub freed-AllConserved :
      (op : String) (l : DecodeSlotLease)
      → lookup op s.slot_leases ≡ some l
      → same l.state released ≡ false
      → AllConserved (free_one l.instance_id (put_lease op (record l { state = released }) s)).1
  unfolding free_one put_lease
  freed-AllConserved op l e held = elim (Option-cases (lookup l.instance_id s.decode_free_slots)) [
    | inl g ↦
        rw (g, free_one)
          (record {
            for_each = λ i. record {
              all_counted = unknown-Conserved i op l l.release_cleanup_id s e held (v.for_each i) g;
            };
          })
    | inr (f, g) ↦ elim (Bool-cases (leb (get_or (lookup l.instance_id s.decode_max_slots) 0) f)) [
      | inl full ↦ absurd (not_full op l e held f g full)
      | inr room ↦
          rw (g, room, free_one)
            (record {
              for_each = λ i. record {
                all_counted =
                    set_free-Conserved i op l l.release_cleanup_id s e held (v.for_each i) f (f + 1)
                      g (λ b. refl);
              };
            })
    ]
  ]

  pub finished-AllConserved :
      (j : String) (epoch : Option String) (op : String)
      → (op == "") ≡ false
      → AllConserved (on_decode_finished j epoch op s).1
  unfolding on_decode_finished
  finished-AllConserved j epoch op named = elim (Option-cases (lookup op s.slot_leases)) [
    | inl e ↦ rw (e, named, on_decode_finished) (ground (arith, v))
    | inr (l, e) ↦ elim (Bool-cases (l.instance_id == j)) [
      | inr other ↦ rw (e, named, other, on_decode_finished) (ground (arith, v))
      | inl same_j ↦
          subst (λ k. AllConserved (on_decode_finished k epoch op s).1)
            ((str_eq_iff l.instance_id j).0 same_j)
            (rw (e, named, (str_eq_iff l.instance_id l.instance_id).1 refl, on_decode_finished)
              (ground (arith, v, freed-AllConserved op l e)))
    ]
  ]
