-- ===== src/Scheduler/Keep.antt =====
-- What the calls on leases keep: prism_serve/scheduler/scheduler.py.
use prism_serve.Base.{
  String, inl, inr, Bool, true, false, Option, if◌then◌else◌, Option-cases, ◌==◌, nat_key, text_key,
  pair_key, arith, none,
}
use prism_serve.Base.Dict.{lookup}
use prism_serve.Scheduler.State.{
  DecodeSlotLease, Env, PdScheduler, LeaseState, quarantined, released,
}
use prism_serve.Scheduler.Leases.{
  put_lease, give_back, take_back, new_lease, reserve_decode_slot, adopt_picked_decode_slot,
  commit_decode_slot, end_lease, release_decode_slot, quarantine_decode_slot,
  release_quarantined_decode_slot, restore_quarantined_decode_slot, restore_replaced_decode_slot,
}
use prism_serve.Scheduler.Feedback.{free_one, on_decode_finished}

-- Either branch of a test that ends a call.
module _ (P : PdScheduler → Type 0) where
  pub either :
      {A : Type 0} (b : Bool) (x y : A × PdScheduler) → P x.1 → P y.1 → P (if b then x else y).1
  either true x y p q = p
  either false x y p q = q

  pub either_state : (b : Bool) (x y : PdScheduler) → P x → P y → P (if b then x else y)
  either_state true x y p q = p
  either_state false x y p q = q

-- What the calls on leases do to the state: they write leases, take slots and give them back.
module _ (P : PdScheduler → Type 0)
    (written : (operation_id : String) (l : DecodeSlotLease) (s : PdScheduler)
      → P s
      → P (put_lease operation_id l s))
    (given : (i : String) (s : PdScheduler) → P s → P (give_back i s))
    (taken : (i : String) (s : PdScheduler) → P s → P (take_back i s))
    (freed : (i : String) (s : PdScheduler) → P s → P (free_one i s).1) (s : PdScheduler)
    (v : P s) where
  pub reserve-keeps : (env : Env) (i req op : String) → P (reserve_decode_slot env i req op s).1
  unfolding reserve_decode_slot
  reserve-keeps env i req op = elim (Option-cases (lookup op s.slot_leases)) [
    | inl e ↦
        rw (e, reserve_decode_slot)
          (either P (op == "") _ _ v
            (either P _ _ _ v (written op (new_lease env i req op) (take_back i s) (taken i s v))))
    | inr (l, e) ↦ rw (e, reserve_decode_slot) (either P (op == "") _ _ v v)
  ]

  pub adopt-keeps : (env : Env) (i req op : String) → P (adopt_picked_decode_slot env i req op s).1
  unfolding adopt_picked_decode_slot
  adopt-keeps env i req op = elim (Option-cases (lookup op s.slot_leases)) [
    | inl e ↦
        rw (e, adopt_picked_decode_slot)
          (either P (op == "") _ _ v (either P _ _ _ v (written op (new_lease env i req op) s v)))
    | inr (l, e) ↦ rw (e, adopt_picked_decode_slot) (either P (op == "") _ _ v v)
  ]

  pub commit-keeps : (op : String) → P (commit_decode_slot op s).1
  unfolding commit_decode_slot
  commit-keeps op = elim (Option-cases (lookup op s.slot_leases)) [
    | inl e ↦ rw (e, commit_decode_slot) v
    | inr (l, e) ↦ rw (e, commit_decode_slot) (either_state P _ _ _ (written op _ s v) v)
  ]

  end_lease-keeps : (op : String) (l : DecodeSlotLease) (c : Option String) → P (end_lease op l c s)
  unfolding end_lease
  end_lease-keeps op l c = given l.instance_id _ (written op _ s v)

  pub release-keeps : (op : String) → P (release_decode_slot op s).1
  unfolding release_decode_slot
  release-keeps op = elim (Option-cases (lookup op s.slot_leases)) [
    | inl e ↦ rw (e, release_decode_slot) (ground (arith, v))
    | inr (l, e) ↦
        rw (e, release_decode_slot) (ground (arith, v, end_lease-keeps op l l.release_cleanup_id))
  ]

  pub quarantine-keeps : (op : String) → P (quarantine_decode_slot op s).1
  unfolding quarantine_decode_slot
  quarantine-keeps op = elim (Option-cases (lookup op s.slot_leases)) [
    | inl e ↦ rw (e, quarantine_decode_slot) v
    | inr (l, e) ↦ rw (e, quarantine_decode_slot) (either P _ _ _ v (written op _ s v))
  ]

  pub release_quarantined-keeps :
      (op : String) (lease_id c : Option String)
      → P (release_quarantined_decode_slot op lease_id c s).1
  unfolding release_quarantined_decode_slot
  release_quarantined-keeps op lease_id c = elim (Option-cases (lookup op s.slot_leases)) [
    | inl e ↦ rw (e, release_quarantined_decode_slot) (ground (arith, v))
    | inr (l, e) ↦
        rw (e, release_quarantined_decode_slot) (ground (arith, v, end_lease-keeps op l c))
  ]

  pub restore_quarantined-keeps :
      (op lease_id c : String) → P (restore_quarantined_decode_slot op lease_id c s).1
  unfolding restore_quarantined_decode_slot
  restore_quarantined-keeps op lease_id c = elim (Option-cases (lookup op s.slot_leases)) [
    | inl e ↦ rw (e, restore_quarantined_decode_slot) (ground (arith, v))
    | inr (l, e) ↦
        rw (e, restore_quarantined_decode_slot)
          (ground (
            arith,
            v,
            taken l.instance_id _
                (written op (record l { state = quarantined; release_cleanup_id = none }) s v),
          ))
  ]

  pub restore_replaced-keeps :
      (op lease_id c : String) (previous : LeaseState)
      → P (restore_replaced_decode_slot op lease_id c previous s).1
  unfolding restore_replaced_decode_slot
  restore_replaced-keeps op lease_id c previous = elim (Option-cases (lookup op s.slot_leases)) [
    | inl e ↦ rw (e, restore_replaced_decode_slot) (ground (arith, v))
    | inr (l, e) ↦
        rw (e, restore_replaced_decode_slot)
          (ground (
            arith,
            v,
            written op (record l { state = previous; release_cleanup_id = none }) _
                (taken l.instance_id s v),
            written op (record l { state = previous; release_cleanup_id = none }) s v,
          ))
  ]

  pub finished-keeps :
      (i : String) (epoch : Option String) (op : String) → P (on_decode_finished i epoch op s).1
  unfolding on_decode_finished
  finished-keeps i epoch op = elim (Option-cases (lookup op s.slot_leases)) [
    | inl e ↦ rw (e, on_decode_finished) (ground (arith, v, freed i s v))
    | inr (l, e) ↦
        rw (e, on_decode_finished)
          (ground
            (arith, v, freed i s v, freed i _ (written op (record l { state = released }) s v)))
  ]
