-- ===== src/Scheduler/Tests.antt =====
-- Runs of the scheduler, and instances of its theorems.
use prism_serve.Scheduler.Rollback.{release-restore}
use prism_serve.Scheduler.State.{quarantined, DecodeSlotLease}
use prism_serve.Scheduler.Conservation.{AllConserved}
use prism_serve.Scheduler.Leasing.{
  LeaseCall, reserves, commits, finishes, after, after-AllConserved,
}
use prism_serve.Scheduler.Feedback.{free_one, on_decode_finished}
use prism_serve.Base.{
  ◌+◌, ◌≤◌, String, ◌≡◌, refl, ap, inl, true, none, some, List, [], ◌∷◌, arith, get_or, nat_key,
  text_key, pair_key, triple_key, ok,
}
use prism_serve.Base.Dict.{sum_by, Dict, lookup, insert, erase, Distinct}
use prism_serve.Base.Int.{pos}
use prism_serve.Scheduler.State.{Config, Env, PdScheduler, init}
use prism_serve.Scheduler.Instances.{
  open_capacity, register_role, or_legacy, register_instance, quarantine_instance,
}
use prism_serve.Scheduler.Pick.{
  is_current, sample_is_fresh, is_below, decode_candidate, take_slot, max_by, take_freest,
  pick_decode_instance, update_kv_usage, decode_instance_epochs,
}
use prism_serve.Scheduler.Leases.{
  release_quarantined_decode_slot, restore_quarantined_decode_slot, take_back, code, put_lease,
  new_lease, reserve_decode_slot, commit_decode_slot,
}
use prism_serve.Scheduler.Eligible.{IsEligible, Picked}
use prism_serve.Scheduler.Choice.{pick_decode_instance-Chosen}
use prism_serve.Scheduler.Calls.{Call, registers, samples, quarantines, step}
use prism_serve.Scheduler.Safety.{
  run, picks_avoid_quarantine, free_slots_bounded, decode_instance_epochs_found,
}

abbrev settings : Config
settings = record {
  unit = 100;
  high_watermark = 85;
  kv_usage_stale_after = 10;
  kv_per_instance_bytes = 56;
  min_decode_instances = 1;
  max_decode_instances = 64;
}

abbrev at_five : Env
at_five = record { now = 5; token = "t"; can_route = λ i. true; world_fresh = true }

abbrev calls : List (Env × Call)
calls =
    (
      at_five,
      samples "d1" (some (record { ratio = pos 10; instance_epoch = "e1"; sampled_at = 3 })),
    )
    ∷ (
      at_five,
      samples "d0" (some (record { ratio = pos 20; instance_epoch = "e0"; sampled_at = 3 })),
    )
    ∷ (at_five, registers "d1" "decode" 3 "e1" [])
    ∷ (at_five, registers "d0" "decode" 2 "e0" [])
    ∷ (at_five, registers "p0" "prefill" 0 "" [])
    ∷ []

abbrev ran : PdScheduler
ran = run calls settings

picked : (pick_decode_instance at_five none ran).0 ≡ some "d1"
unfolding run step register_instance or_legacy register_role open_capacity update_kv_usage
    pick_decode_instance take_freest max_by take_slot decode_candidate sample_is_fresh is_current
    is_below insert lookup
picked = refl

-- The same row, and then one of the two decode instances is quarantined.
abbrev fenced_calls : List (Env × Call)
fenced_calls = (at_five, quarantines "d0" none none) ∷ calls

fenced_picked : (pick_decode_instance at_five none (run fenced_calls settings)).0 ≡ some "d1"
unfolding run step register_instance or_legacy register_role open_capacity update_kv_usage
    quarantine_instance pick_decode_instance take_freest max_by take_slot decode_candidate
    sample_is_fresh is_current is_below insert lookup erase
fenced_picked = refl

picks_avoid_quarantine_example : lookup "d1" (run fenced_calls settings).quarantine_records ≡ none
picks_avoid_quarantine_example =
    picks_avoid_quarantine fenced_calls settings at_five none "d1" (inl fenced_picked)

three_free : lookup "d1" (run calls settings).decode_free_slots ≡ some 3
unfolding run step register_instance or_legacy register_role open_capacity update_kv_usage insert
    lookup
three_free = refl

free_slots_bounded_example : 3 ≤ get_or (lookup "d1" (run calls settings).decode_max_slots) 0
free_slots_bounded_example = free_slots_bounded calls settings "d1" 3 three_free

decode_instance_epochs_found_example :
    (r : Dict String String) × (decode_instance_epochs (run calls settings) ≡ some r)
decode_instance_epochs_found_example = decode_instance_epochs_found calls settings

abbrev two_ready : PdScheduler
two_ready = record (init settings) {
  decode_free_slots = ("d0", 2) ∷ ("d1", 3) ∷ [];
  decode_max_slots = ("d0", 2) ∷ ("d1", 3) ∷ [];
  prefill_load = ("p0", 1) ∷ ("p1", 0) ∷ [];
}

free_twice_none : Distinct two_ready.decode_free_slots
unfolding lookup
free_twice_none = (refl, (refl, tt))

ran_twice_none : Distinct ran.decode_free_slots
unfolding run step register_instance or_legacy register_role open_capacity update_kv_usage insert
    lookup
ran_twice_none = (refl, (refl, tt))

-- An instance is picked there, as `picked` shows.
pick_decode_instance-Chosen_example :
    let (r, s') = pick_decode_instance at_five none ran in
    Picked (IsEligible at_five none ran) (λ m n. m ≤ n) ran.decode_free_slots r
    × (s' ≡ elim r [ none ↦ ran | some i ↦ take_back i ran ])
pick_decode_instance-Chosen_example = pick_decode_instance-Chosen at_five none ran ran_twice_none

none_leased : AllConserved two_ready
unfolding sum_by lookup
none_leased = record {
  for_each = λ i. record { all_counted = λ n h. omega (arith, ap (λ o. get_or o 0) h) };
}

abbrev one_decode : List LeaseCall
one_decode =
    finishes "d0" none "op"
    ∷ commits "op"
    ∷ reserves at_five "d1" "r2" "op2"
    ∷ reserves at_five "d0" "r" "op"
    ∷ []

after-AllConserved_example : AllConserved (after one_decode two_ready)
after-AllConserved_example =
    after-AllConserved one_decode two_ready (refl, (tt, (tt, (tt, tt)))) none_leased

-- The slot of the decode that is done is free again, and that of the other is taken.
one_taken : (after one_decode two_ready).decode_free_slots ≡ ("d0", 2) ∷ ("d1", 2) ∷ []
unfolding after reserve_decode_slot commit_decode_slot on_decode_finished free_one put_lease
    take_back new_lease code lookup insert
one_taken = refl

abbrev doubtful : DecodeSlotLease
doubtful = record {
  lease_id = "l";
  operation_id = "op";
  req_id = "r";
  instance_id = "d0";
  state = quarantined;
  reserved_at = 4;
  release_cleanup_id = none;
}

abbrev one_doubtful : PdScheduler
one_doubtful = record two_ready {
  decode_free_slots = ("d0", 1) ∷ [];
  slot_leases = ("op", doubtful) ∷ [];
}

doubtful_there : lookup "op" one_doubtful.slot_leases ≡ some doubtful
unfolding lookup
doubtful_there = refl

one_free : lookup "d0" one_doubtful.decode_free_slots ≡ some 1
unfolding lookup
one_free = refl

room_for_two : 1 + 1 ≤ get_or (lookup "d0" one_doubtful.decode_max_slots) 0
unfolding lookup
room_for_two = omega arith

release-restore_example :
    let (r, s') = release_quarantined_decode_slot "op" (some "l") (some "c") one_doubtful in
    (r ≡ ok true)
    × (lookup "d0" s'.decode_free_slots ≡ some (1 + 1))
    × (restore_quarantined_decode_slot "op" "l" "c" s' ≡ (ok tt, one_doubtful))
release-restore_example =
    release-restore "op" "c" doubtful 1 one_doubtful doubtful_there refl refl one_free room_for_two
