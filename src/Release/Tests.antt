-- ===== src/Release/Tests.antt =====
-- Instances of the theorems on releases.
use prism_serve.Base.{
  ℕ, zero, suc, ◌+◌, ◌-◌, ◌*◌, ◌/◌, ◌%◌, ◌≤◌, ◌<◌, min, max, String, ◌≡◌, refl, sym, ap, subst, ◌∙◌,
  ◌≢◌, ◌↔◌, ◌⊎◌, inl, inr, Bool, true, false, not, ◌&&◌, ◌||◌, Option, none, some, List, [], ◌∷◌,
  ◌++◌, map, arith, ltb, leb, nat_beq, if◌then◌else◌, ltb→lt, leb→le, nat_beq_iff, Bool-cases,
  Option-cases, is_some, get_or, Key, ◌==◌, nat_key, text_key, pair_beq, pair_key, triple_beq,
  triple_key, triple_beq_iff, pair_beq_iff, str_eq_refl, str_eq_iff, length, take, drop, filter,
  any, all, All, Pairwise, All-append, All-drop, Pairwise-drop, All-map, Pairwise-last,
  length-append, length-drop, length-map, append_nil, append_step, take-append, drop-append, Error,
  class_error, value_error, assertion_error, runtime_error, key_error, Result, ok, err, Action,
  pure, raise, gets, or_raise, modify, raise_if, ◌>>=◌, ◌>>◌, bind_end, raise_if_none, bind_end,
  bind_ok, bind_err, pass, Checked, raised, passed, raise_if-Checked, then-Checked, reading-Checked,
  weaken-Checked, after-Checked, give, after_give,
}
use prism_serve.Store.Records.{ReplacementReleaseRecord, Hashes}
use prism_serve.Store.Load.{complete_record}
use prism_serve.Store.History.{after, started}
use prism_serve.Release.World.{World, record_of, release_whole_world_replaced}
use prism_serve.Release.Recovered.{Recovered, release_whole_world_replaced-Backed}
use prism_serve.Base.Dict.{lookup}
use prism_serve.Scheduler.State.{quarantined, DecodeSlotLease, Config, PdScheduler, init}
use prism_serve.Scheduler.Leases.{code, same, end_lease}
use prism_serve.Release.Evidence.{ReplacementEvidence, ReleaseRecord, release_local_record}
use prism_serve.Release.Replay.{release_local_record_twice}

abbrev settings : Config
settings = record {
  unit = 100;
  high_watermark = 85;
  kv_usage_stale_after = 10;
  kv_per_instance_bytes = 56;
  min_decode_instances = 1;
  max_decode_instances = 64;
}

abbrev doubtful : DecodeSlotLease
doubtful = record {
  lease_id = "l";
  operation_id = "op";
  req_id = "r";
  instance_id = "d0";
  state = quarantined;
  reserved_at = 4;
  release_cleanup_id = none;
}

abbrev scheduler : PdScheduler
scheduler = record (init settings) {
  decode_free_slots = ("d0", 0) ∷ [];
  decode_max_slots = ("d0", 1) ∷ [];
  slot_leases = ("op", doubtful) ∷ [];
}

abbrev decision : ReleaseRecord
decision = record { cleanup_id = "c"; operation_id = "op"; lease_id = "l" }

doubtful_there : lookup "op" scheduler.slot_leases ≡ some doubtful
unfolding lookup
doubtful_there = refl

is_doubtful : same quarantined quarantined ≡ true
unfolding code
is_doubtful = refl

release_local_record_twice_example :
    let s' = end_lease "op" doubtful (some "c") scheduler in
    (release_local_record decision true scheduler ≡ (ok tt, s'))
    × (release_local_record decision true s' ≡ (ok tt, s'))
release_local_record_twice_example =
    release_local_record_twice decision doubtful scheduler true doubtful_there refl is_doubtful

abbrev hashes : Hashes
hashes = record { text_hash = λ s. s; records_hash = λ rs. "r"; payload_hash = λ p. "p" }

abbrev evidence : ReplacementEvidence
evidence = record {
  restart_run_id = "run";
  old_topology_generation = "old";
  new_topology_generation = "new";
  old_termination_proof_digests = "1" ∷ "2" ∷ "3" ∷ "4" ∷ [];
  fresh_resource_report_digests = "1" ∷ "2" ∷ "3" ∷ "4" ∷ [];
  excluded_old_operation_digest = "x";
  accepted = true;
  decision_digest = "d";
}

abbrev world : World
world = record { store = some (started hashes 4 2 []); scheduler = scheduler }

abbrev taken : ReplacementReleaseRecord
taken = record_of "c" "op" "l" ("kv" ∷ []) evidence

taken_complete : complete_record taken ≡ true
unfolding complete_record record_of
taken_complete = refl

world_started : world.store ≡ some (after hashes [] (started hashes 4 2 []))
unfolding after
world_started = refl

release_whole_world_replaced-Backed_example :
    let w' = (release_whole_world_replaced hashes "c" "op" "l" ("kv" ∷ []) evidence world).1 in
    (w'.scheduler ≡ scheduler) ⊎ Recovered hashes taken w'.store
release_whole_world_replaced-Backed_example =
    release_whole_world_replaced-Backed hashes 4 2 [] [] "c" "op" "l" ("kv" ∷ []) evidence world tt
      world_started taken_complete

-- The call returns, and the slot is free again.
slot_freed :
    lookup "d0"
      (release_whole_world_replaced hashes "c" "op" "l"
        ("kv" ∷ [])
        evidence
        world).1.scheduler.decode_free_slots
    ≡ some 1
unfolding release_whole_world_replaced lookup prism_serve.Release.World.require_replacement_store
    prism_serve.Release.World.on_store prism_serve.Release.World.with_store started
    prism_serve.Store.Load.open_store prism_serve.Store.Load.load prism_serve.Store.Load.load_file
    prism_serve.Store.Load.finish_sealed_gc_after_restart prism_serve.Store.Load.finish_segment
    prism_serve.Store.Decisions.lookup_record prism_serve.Store.State.require_integrity
    prism_serve.Store.Decisions.answer_found prism_serve.Store.Decisions.check_new
    prism_serve.Store.State.seal_for_run prism_serve.Store.State.validate_requested_run record_of
    prism_serve.Base.Dict.insert prism_serve.Base.Order.distinct_count prism_serve.Base.Order.insort
    prism_serve.Base.Order.sorted prism_serve.Release.Evidence.evidence_error release_local_record
    prism_serve.Release.Evidence.require_live_quarantined_lease
    prism_serve.Release.Evidence.require_released prism_serve.Release.World.local_part
    prism_serve.Release.World.on_scheduler prism_serve.Release.World.release_found
    prism_serve.Release.World.release_stored prism_serve.Release.World.unique
    prism_serve.Release.World.validate_replacement_evidence code end_lease
    prism_serve.Scheduler.Leases.give_back prism_serve.Scheduler.Leases.put_lease
    prism_serve.Scheduler.Leases.release_quarantined_decode_slot
    prism_serve.Store.Decisions.commit_new prism_serve.Store.Decisions.other_decides
    prism_serve.Store.Decisions.persist_found prism_serve.Store.Decisions.persist_record
    prism_serve.Store.State.atomic_write prism_serve.Store.State.commit_by
    prism_serve.Store.State.commit_state prism_serve.Store.State.validate_against
slot_freed = refl
