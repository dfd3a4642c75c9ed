-- ===== src/Release/Replay.antt =====
-- A release that is replayed: prism_serve/scheduler/resource_release.py.
use prism_serve.Base.{
  String, ◌≡◌, refl, ap, ◌∙◌, inl, inr, Bool, true, some, arith, Option-cases, ◌==◌, nat_key,
  text_key, pair_key, str_eq_iff, ok,
}
use prism_serve.Base.Dict.{lookup, lookup_same}
use prism_serve.Scheduler.State.{released, quarantined, DecodeSlotLease, PdScheduler}
use prism_serve.Scheduler.Leases.{
  code, same, put_lease, give_back, end_lease, release_quarantined_decode_slot,
}
use prism_serve.Release.Evidence.{ReleaseRecord, require_released, release_local_record}

given_leases : (i : String) (s : PdScheduler) → (give_back i s).slot_leases ≡ s.slot_leases
unfolding give_back
given_leases i s = elim (Option-cases (lookup i s.decode_free_slots)) [
  | inl e ↦ rw (e, give_back) refl
  | inr (n, e) ↦ rw (e, give_back) refl
]

module _ (r : ReleaseRecord) (l : DecodeSlotLease) (s : PdScheduler)
    (there : lookup r.operation_id s.slot_leases ≡ some l)
    (named : (l.lease_id == r.lease_id) ≡ true) (held : same l.state quarantined ≡ true) where
  abbrev pub over : DecodeSlotLease
  over = record l { state = released; release_cleanup_id = some r.cleanup_id }

  abbrev pub after : PdScheduler
  after = end_lease r.operation_id l (some r.cleanup_id) s

  pub released_once : (b : Bool) → release_local_record r b s ≡ (ok tt, after)
  unfolding release_local_record release_quarantined_decode_slot require_released code
  released_once b =
      rw (there, release_local_record)
        (ground (
          arith,
          there,
          named,
          held,
          str_eq_iff l.lease_id r.lease_id,
          str_eq_iff r.lease_id l.lease_id,
        ))

  over_there : lookup r.operation_id after.slot_leases ≡ some over
  unfolding end_lease put_lease
  over_there =
      ap (lookup r.operation_id) (given_leases l.instance_id _)
      ∙ lookup_same r.operation_id over s.slot_leases

  pub released_twice : (b : Bool) → release_local_record r b after ≡ (ok tt, after)
  unfolding release_local_record code
  released_twice b =
      rw (over_there, release_local_record)
        (ground (arith, named, str_eq_iff r.cleanup_id r.cleanup_id))

-- The release of a record whose lease is quarantined, under the id that it names, succeeds and ends
-- that lease; releasing the record again, as after a restart, succeeds and changes nothing.
pub release_local_record_twice :
    (r : ReleaseRecord) (l : DecodeSlotLease) (s : PdScheduler) (allow_missing : Bool)
    → lookup r.operation_id s.slot_leases ≡ some l
    → (l.lease_id == r.lease_id) ≡ true
    → same l.state quarantined ≡ true
    → let s' = end_lease r.operation_id l (some r.cleanup_id) s in
      (release_local_record r allow_missing s ≡ (ok tt, s'))
      × (release_local_record r allow_missing s' ≡ (ok tt, s'))
release_local_record_twice r l s b there named held =
    (released_once r l s there named held b, released_twice r l s there named held b)
