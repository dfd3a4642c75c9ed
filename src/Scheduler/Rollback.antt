-- ===== src/Scheduler/Rollback.antt =====
-- A release that is rolled back: prism_serve/scheduler/scheduler.py.
use prism_serve.Base.{
  ℕ, ◌+◌, ◌-◌, ◌≤◌, String, ◌≡◌, sym, ap, subst, ◌∙◌, true, none, some, arith, get_or, nat_key,
  text_key, pair_key, str_eq_iff, ok,
}
use prism_serve.Base.Dict.{lookup, insert, lookup_same, insert_again, insert_known}
use prism_serve.Scheduler.State.{quarantined, released, DecodeSlotLease, PdScheduler}
use prism_serve.Scheduler.Leases.{
  code, put_lease, give_back, take_back, end_lease, release_quarantined_decode_slot,
  restore_quarantined_decode_slot,
}

module _ (op c : String) (l : DecodeSlotLease) (f : ℕ) (s : PdScheduler)
    (there : lookup op s.slot_leases ≡ some l) (held : l.state ≡ quarantined)
    (fresh : l.release_cleanup_id ≡ none)
    (known : lookup l.instance_id s.decode_free_slots ≡ some f)
    (room : f + 1 ≤ get_or (lookup l.instance_id s.decode_max_slots) 0) where
  over : DecodeSlotLease
  over = record l { state = released; release_cleanup_id = some c }

  -- The state between the release and the rollback.
  between : PdScheduler
  between = record s {
    slot_leases = insert op over s.slot_leases;
    decode_free_slots = insert l.instance_id (f + 1) s.decode_free_slots;
  }

  release-between : end_lease op l (some c) s ≡ between
  unfolding end_lease give_back put_lease between over
  release-between =
      rw (known, end_lease, give_back)
        (ap
          (λ k. record s {
            slot_leases = insert op over s.slot_leases;
            decode_free_slots = insert l.instance_id k s.decode_free_slots;
          })
          (omega (arith, room)))

  released-between :
      release_quarantined_decode_slot op (some l.lease_id) (some c) s ≡ (ok true, between)
  unfolding release_quarantined_decode_slot code
  released-between =
      rw (there, release_quarantined_decode_slot)
        (ground (arith, str_eq_iff l.lease_id l.lease_id, ap code held, release-between))

  lease_back : record l { state = quarantined; release_cleanup_id = none } ≡ l
  lease_back =
      ap (λ x. record l { state = x; release_cleanup_id = none }) (sym held)
      ∙ ap (λ r. record l { release_cleanup_id = r }) (sym fresh)

  leases_back :
      insert op
        (record l { state = quarantined; release_cleanup_id = none })
        (insert op over s.slot_leases)
      ≡ s.slot_leases
  leases_back =
      insert_again op (record l { state = quarantined; release_cleanup_id = none }) over
        s.slot_leases
      ∙ ap (λ k. insert op k s.slot_leases) lease_back
      ∙ insert_known op l s.slot_leases there

  one_back : f + 1 - 1 ≡ f
  one_back = omega arith

  slots_back :
      insert l.instance_id (f + 1 - 1) (insert l.instance_id (f + 1) s.decode_free_slots)
      ≡ s.decode_free_slots
  slots_back =
      insert_again l.instance_id (f + 1 - 1) (f + 1) s.decode_free_slots
      ∙ ap (λ k. insert l.instance_id k s.decode_free_slots) one_back
      ∙ insert_known l.instance_id f s.decode_free_slots known

  restored :
      take_back l.instance_id
        (put_lease op (record l { state = quarantined; release_cleanup_id = none }) between)
      ≡ s
  unfolding take_back put_lease between
  restored =
      rw (lookup_same l.instance_id (f + 1) s.decode_free_slots, take_back)
        (ap
            (λ d. record s {
              slot_leases = d;
              decode_free_slots =
                  insert l.instance_id (f + 1 - 1)
                    (insert l.instance_id (f + 1) s.decode_free_slots);
            })
            leases_back
          ∙ ap (λ d. record s { decode_free_slots = d }) slots_back)

  back : restore_quarantined_decode_slot op l.lease_id c between ≡ (ok tt, s)
  unfolding restore_quarantined_decode_slot code between over
  back =
      rw (lookup_same op over s.slot_leases, restore_quarantined_decode_slot)
        (ground (arith, str_eq_iff l.lease_id l.lease_id, str_eq_iff c c, restored))

-- The release of a quarantined lease, where no cleanup has released it and the instance has a slot
-- in use, hands the slot back; rolling that release back with the same ids restores the scheduler
-- exactly.
pub release-restore :
    (op c : String) (l : DecodeSlotLease) (f : ℕ) (s : PdScheduler)
    → lookup op s.slot_leases ≡ some l
    → l.state ≡ quarantined
    → l.release_cleanup_id ≡ none
    → lookup l.instance_id s.decode_free_slots ≡ some f
    → f + 1 ≤ get_or (lookup l.instance_id s.decode_max_slots) 0
    → let (r, s') = release_quarantined_decode_slot op (some l.lease_id) (some c) s in
      (r ≡ ok true)
      × (lookup l.instance_id s'.decode_free_slots ≡ some (f + 1))
      × (restore_quarantined_decode_slot op l.lease_id c s' ≡ (ok tt, s))
unfolding between
release-restore op c l f s there held fresh known room =
    let e = released-between op c l f s there held fresh known room in
    (
      ap (λ x. x.0) e,
      ap (λ x. lookup l.instance_id x.1.decode_free_slots) e
          ∙ lookup_same l.instance_id (f + 1) s.decode_free_slots,
      subst (λ x. restore_quarantined_decode_slot op l.lease_id c x.1 ≡ (ok tt, s)) (sym e)
          (back op c l f s there held fresh known room),
    )
