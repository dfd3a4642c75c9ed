-- ===== src/Scheduler/Leases.antt =====
-- Leases on decode slots, and the feedback that gives slots back: prism_serve/scheduler/scheduler.py.
use prism_serve.Base.{
  ℕ, ◌+◌, ◌-◌, min, String, Bool, true, false, not, ◌||◌, Option, none, some, List, if◌then◌else◌,
  get_or, ◌==◌, nat_key, text_key, pair_key, filter, value_error, assertion_error, key_error, ok,
  err, Action,
}
use prism_serve.Base.Dict.{values, lookup, contains, insert}
use prism_serve.Scheduler.State.{
  LeaseState, reserved, active, quarantined, released, DecodeSlotLease, Env, PdScheduler,
}

unfoldable pub code : LeaseState → ℕ
code reserved = 1
code active = 2
code quarantined = 3
code released = 4

-- `==` of two lease states
abbrev pub same : LeaseState → LeaseState → Bool
same s t = code s == code t

unfoldable pub put_lease : String → DecodeSlotLease → PdScheduler → PdScheduler
put_lease operation_id l s = record s { slot_leases = insert operation_id l s.slot_leases }

-- `free[i] = min(maximum, free[i] + 1)`, of an instance that is known
unfoldable pub give_back : String → PdScheduler → PdScheduler
give_back instance_id s = elim (lookup instance_id s.decode_free_slots) [
  | none ↦ s
  | some free ↦ record s {
    decode_free_slots =
        insert instance_id (min (get_or (lookup instance_id s.decode_max_slots) 0) (free + 1))
          s.decode_free_slots;
  }
]

-- `free[i] = max(0, free[i] - 1)`, of an instance that is known
unfoldable pub take_back : String → PdScheduler → PdScheduler
take_back instance_id s = elim (lookup instance_id s.decode_free_slots) [
  | none ↦ s
  | some free ↦ record s { decode_free_slots = insert instance_id (free - 1) s.decode_free_slots }
]

unfoldable pub new_lease : Env → String → String → String → DecodeSlotLease
new_lease env instance_id req_id operation_id = record {
  lease_id = env.token;
  operation_id = operation_id;
  req_id = req_id;
  instance_id = instance_id;
  state = reserved;
  reserved_at = env.now;
  release_cleanup_id = none;
}

unfoldable pub reserve_decode_slot :
    Env → String → String → String → Action PdScheduler (Option DecodeSlotLease)
reserve_decode_slot env instance_id req_id operation_id s =
    if operation_id == ""
    then (err (assertion_error "decode slot reservation requires operation_id"), s)
    else elim (lookup operation_id s.slot_leases) [
      | some existing ↦ (ok (if same existing.state released then none else some existing), s)
      | none ↦
          if not (env.can_route instance_id)
            || get_or (lookup instance_id s.decode_free_slots) 0 == 0
          then (ok none, s)
          else (
            ok (some (new_lease env instance_id req_id operation_id)),
            put_lease operation_id (new_lease env instance_id req_id operation_id)
                (take_back instance_id s),
          )
    ]

unfoldable pub adopt_picked_decode_slot :
    Env → String → String → String → Action PdScheduler DecodeSlotLease
adopt_picked_decode_slot env instance_id req_id operation_id s =
    if operation_id == ""
    then (err (assertion_error "decode slot adoption requires operation_id"), s)
    else if contains operation_id s.slot_leases
    then (err (value_error "decode operation already has a slot lease"), s)
    else if not (contains instance_id s.decode_free_slots)
    then (err (value_error "unknown decode instance"), s)
    else (
      ok (new_lease env instance_id req_id operation_id),
      put_lease operation_id (new_lease env instance_id req_id operation_id) s,
    )

unfoldable pub commit_decode_slot : String → Action PdScheduler (Unit {0})
commit_decode_slot operation_id s = elim (lookup operation_id s.slot_leases) [
  | none ↦ (err key_error, s)
  | some l ↦ (
    ok tt,
    if same l.state reserved then put_lease operation_id (record l { state = active }) s else s,
  )
]

-- A lease that ends gives its slot back.
unfoldable pub end_lease : String → DecodeSlotLease → Option String → PdScheduler → PdScheduler
end_lease operation_id l cleanup_id s =
    give_back l.instance_id
      (put_lease operation_id (record l { state = released; release_cleanup_id = cleanup_id }) s)

unfoldable pub release_decode_slot : String → Action PdScheduler Bool
release_decode_slot operation_id s = elim (lookup operation_id s.slot_leases) [
  | none ↦ (ok false, s)
  | some l ↦
      if same l.state released || same l.state quarantined
      then (ok false, s)
      else if same l.state active
      then (err (value_error "cannot rollback an active decode slot"), s)
      else (ok true, end_lease operation_id l l.release_cleanup_id s)
]

unfoldable pub quarantine_decode_slot : String → Action PdScheduler (Unit {0})
quarantine_decode_slot operation_id s = elim (lookup operation_id s.slot_leases) [
  | none ↦ (err key_error, s)
  | some l ↦
      if same l.state released
      then (err (value_error "cannot quarantine a released decode slot"), s)
      else (ok tt, put_lease operation_id (record l { state = quarantined }) s)
]

-- `x is not None and x != y`
abbrev pub differs : Option String → Option String → Bool
differs none y = false
differs (some x) none = true
differs (some x) (some y) = not (x == y)

unfoldable pub release_quarantined_decode_slot :
    String → Option String → Option String → Action PdScheduler Bool
release_quarantined_decode_slot operation_id lease_id cleanup_id s =
    elim (lookup operation_id s.slot_leases) [
      | none ↦ (ok false, s)
      | some l ↦
          if differs lease_id (some l.lease_id)
          then (err (value_error "decode slot lease id mismatch"), s)
          else if same l.state released
          then (if differs cleanup_id l.release_cleanup_id
              then (err (value_error "released slot replay changed cleanup id"), s)
              else (ok false, s))
          else if not (same l.state quarantined)
          then (ok false, s)
          else (ok true, end_lease operation_id l cleanup_id s)
    ]

unfoldable pub restore_quarantined_decode_slot :
    String → String → String → Action PdScheduler (Unit {0})
restore_quarantined_decode_slot operation_id lease_id cleanup_id s =
    elim (lookup operation_id s.slot_leases) [
      | none ↦ (err key_error, s)
      | some l ↦
          if not (l.lease_id == lease_id)
          then (err (value_error "decode slot lease id mismatch"), s)
          else if not (same l.state released) || differs (some cleanup_id) l.release_cleanup_id
          then (err (value_error "decode slot was not released by this cleanup"), s)
          else (
            ok tt,
            take_back l.instance_id (
                put_lease operation_id (record l { state = quarantined; release_cleanup_id = none })
                  s),
          )
    ]

unfoldable pub restore_replaced_decode_slot :
    String → String → String → LeaseState → Action PdScheduler (Unit {0})
restore_replaced_decode_slot operation_id lease_id cleanup_id previous_state s =
    if same previous_state released
    then (err (value_error "invalid replacement lease state"), s)
    else elim (lookup operation_id s.slot_leases) [
      | none ↦ (err key_error, s)
      | some l ↦
          if not (l.lease_id == lease_id)
          then (err (value_error "decode slot lease id mismatch"), s)
          else if same l.state released
          then (if differs (some cleanup_id) l.release_cleanup_id
              then (err (value_error "decode slot was not released by this cleanup"), s)
              else (
                ok tt,
                put_lease operation_id
                    (record l { state = previous_state; release_cleanup_id = none })
                    (take_back l.instance_id s),
              ))
          else if not (same l.state quarantined)
          then (err (value_error "replacement rollback requires quarantined/released slot"), s)
          else (
            ok tt,
            put_lease operation_id (record l { state = previous_state; release_cleanup_id = none })
                s,
          )
    ]

abbrev pub decode_slot_lease : String → PdScheduler → Option DecodeSlotLease
decode_slot_lease operation_id s = lookup operation_id s.slot_leases

abbrev pub quarantined_decode_leases : PdScheduler → List DecodeSlotLease
quarantined_decode_leases s = filter (λ l. same l.state quarantined) (values s.slot_leases)

abbrev pub replacement_decode_leases : PdScheduler → List DecodeSlotLease
replacement_decode_leases s = filter (λ l. not (same l.state released)) (values s.slot_leases)
