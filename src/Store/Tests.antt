-- ===== src/Store/Tests.antt =====
-- Instances of the theorems on the replacement store.
use prism_serve.Base.{
  ◌<◌, String, ◌≡◌, refl, ◌⊎◌, true, false, none, some, List, [], ◌∷◌, arith, nat_key, text_key,
  pair_key, triple_key, All, Pairwise, class_error, ok, err,
}
use prism_serve.Base.Dict.{lookup, values, insert}
use prism_serve.Base.Order.{insort, sorted, distinct_count}
use prism_serve.Store.Records.{
  ReplacementReleaseRecord, RecordKey, key_of, Hashes, prefixed, digest, same_record,
}
use prism_serve.Store.State.{
  Store, done, not_replaced, not_synced, atomic_write, commit_by, commit_state, payload_of,
  envelope_of, require_integrity, ready, transition_closed, seal_for_run, validate_against,
  validate_requested_run, write_failed,
}
use prism_serve.Store.Load.{
  complete_record, complete_seal, load_records, falls, mixes_runs, mixes_decisions, check_payload,
  adopt, load_payload, load_envelope, load_file, load, finish_segment,
  finish_sealed_gc_after_restart, open_store,
}
use prism_serve.Store.Decisions.{
  check_new, answer_found, lookup_record, other_decides, commit_new, persist_found, persist_record,
  merge, leases_from, take_all, write_batch, commit_merged, check_batch, persist_records,
}
use prism_serve.Store.Seals.{seal_of, seal_run}
use prism_serve.Store.Loadable.{Apart, IsLoadable}
use prism_serve.Store.Recall.{filed}
use prism_serve.Store.History.{
  Call, persist, persist_batch, seal, restart, reopen, call, after, IsComplete, started,
  after_restart, after-IsLoadable,
}
use prism_serve.Store.Closed.{SameMemory, fails_closed}
use prism_serve.Store.Crash.{recovered}
use prism_serve.Store.Leaving.{closed_by}
use prism_serve.Store.Atomic.{seal_run_atomic}
use prism_serve.Store.Filling.{IsDecision, asked, run_taken}
use prism_serve.Store.Again.{persist_record_again}
use Prim.Native.String.{◌++◌ as append}

abbrev join : List ReplacementReleaseRecord → String
join [] = ""
join (r ∷ rs) = append r.cleanup_id (join rs)

abbrev hashes : Hashes
hashes = record { text_hash = λ s. s; records_hash = join; payload_hash = λ p. join p.records }

abbrev decision_on : String → String → ReplacementReleaseRecord
decision_on cleanup lease = record {
  cleanup_id = cleanup;
  restart_run_id = "run";
  old_operation_digest = "op";
  operation_id = "o";
  lease_id = lease;
  old_resource_kinds = "kv" ∷ [];
  decision_digest = "yes";
}

abbrev row : List Call
row =
    persist (decision_on "b" "l1") "old"
    ∷ persist_batch (decision_on "a" "l2" ∷ decision_on "b" "l1" ∷ []) "run" "old" none
    ∷ restart false (not_synced ∷ [])
    ∷ []

abbrev held : Store
held = after hashes row (started hashes 4 2 [])

row-IsComplete : All IsComplete row
unfolding IsComplete complete_record
row-IsComplete = (refl, ((refl, (refl, tt)), (tt, tt)))

held_sound : held.fatal_error ≡ none
unfolding after started call reopen open_store load load_file load_envelope load_payload
    load_records adopt check_payload falls mixes_runs mixes_decisions finish_sealed_gc_after_restart
    finish_segment seal_for_run persist_record persist_found lookup_record check_new
    require_integrity answer_found commit_new other_decides persist_records check_batch merge
    leases_from commit_merged write_batch take_all commit_state commit_by atomic_write payload_of
    envelope_of prefixed digest validate_requested_run validate_against lookup insert sorted insort
    same_record complete_record complete_seal distinct_count
held_sound = refl

after_restart_example :
    (open_store hashes held.max_records_per_run held.seal_retention held.disk ≡ filed held)
    × ((k : RecordKey) → lookup k (filed held).records ≡ lookup k held.records)
after_restart_example = after_restart hashes 4 2 [] row held row-IsComplete refl held_sound

after-IsLoadable_example :
    IsLoadable held.max_records_per_run held.seal_retention held.active_run
      (values held.records)
      held.seals
      held.next_seal_sequence
after-IsLoadable_example = after-IsLoadable hashes 4 2 [] row held row-IsComplete refl held_sound

abbrev one : List Call
one = persist (decision_on "b" "l1") "old" ∷ []

-- The first commit of a seal will fail after the file has been replaced.
abbrev risky : Store
risky = after hashes one (started hashes 4 2 (done ∷ not_synced ∷ []))

risky_sound : risky.fatal_error ≡ none
unfolding after started call reopen open_store load load_file load_envelope load_payload
    load_records adopt check_payload falls mixes_runs mixes_decisions finish_sealed_gc_after_restart
    finish_segment seal_for_run persist_record persist_found lookup_record check_new
    require_integrity answer_found commit_new other_decides persist_records check_batch merge
    leases_from commit_merged write_batch take_all commit_state commit_by atomic_write payload_of
    envelope_of prefixed digest validate_requested_run validate_against lookup insert sorted insort
    same_record complete_record complete_seal distinct_count
risky_sound = refl

one-IsComplete : All IsComplete one
unfolding IsComplete complete_record
one-IsComplete = (refl, tt)

risky_retains : 0 < risky.seal_retention
unfolding after started call reopen open_store load load_file load_envelope load_payload
    load_records adopt check_payload falls mixes_runs mixes_decisions finish_sealed_gc_after_restart
    finish_segment seal_for_run persist_record persist_found lookup_record check_new
    require_integrity answer_found commit_new other_decides persist_records check_batch merge
    leases_from commit_merged write_batch take_all commit_state commit_by atomic_write payload_of
    envelope_of prefixed digest validate_requested_run validate_against lookup insert sorted insort
    same_record complete_record complete_seal distinct_count
risky_retains = omega arith

seal_run_atomic_example :
    let t = (seal_run hashes "run" "old" "new" "yes" risky).1 in
    (recovered hashes t ≡ recovered hashes risky)
    ⊎ (recovered hashes t ≡ closed_by hashes (seal_of hashes "run" "old" "new" "yes" risky) risky)
seal_run_atomic_example =
    seal_run_atomic hashes 4 2 (done ∷ not_synced ∷ []) one risky "run" "old" "new" "yes"
      one-IsComplete refl risky_sound risky_retains refl

abbrev broken : Store
broken = after hashes one (started hashes 4 2 (not_replaced ∷ []))

broken_closed : broken.fatal_error ≡ some (class_error "OSError" "")
unfolding after started call reopen open_store load load_file load_envelope load_payload
    load_records adopt check_payload falls mixes_runs mixes_decisions finish_sealed_gc_after_restart
    finish_segment seal_for_run persist_record persist_found lookup_record check_new
    require_integrity answer_found commit_new other_decides persist_records check_batch merge
    leases_from commit_merged write_batch take_all commit_state commit_by atomic_write payload_of
    envelope_of prefixed digest validate_requested_run validate_against lookup insert sorted insort
    same_record complete_record complete_seal distinct_count
broken_closed = refl

-- The first write of this store is not synced.
abbrev fragile : Store
fragile = started hashes 4 2 (not_synced ∷ [])

abbrev failed : Store
failed = (persist_record hashes (decision_on "b" "l1") "old" fragile).1

first_fails :
    persist_record hashes (decision_on "b" "l1") "old" fragile ≡ (err write_failed, failed)
unfolding after started call reopen open_store load load_file load_envelope load_payload
    load_records adopt check_payload falls mixes_runs mixes_decisions finish_sealed_gc_after_restart
    finish_segment seal_for_run persist_record persist_found lookup_record check_new
    require_integrity answer_found commit_new other_decides persist_records check_batch merge
    leases_from commit_merged write_batch take_all commit_state commit_by atomic_write payload_of
    envelope_of prefixed digest validate_requested_run validate_against lookup insert sorted insort
    same_record complete_record complete_seal distinct_count
first_fails = refl

abbrev later : List Call
later = persist (decision_on "a" "l2") "old" ∷ seal "run" "old" "new" "yes" ∷ []

fails_closed_example :
    SameMemory fragile failed
    × ((failed ≡ fragile)
        ⊎ ((ready failed ≡ false)
            × (transition_closed failed ≡ false)
            × (after hashes later failed ≡ failed)))
fails_closed_example =
    fails_closed hashes (decision_on "b" "l1") "old" fragile failed write_failed later first_fails
      (tt, (tt, tt))

abbrev empty_store : Store
empty_store = started hashes 4 2 []

abbrev filled : Store
filled = (persist_record hashes (decision_on "b" "l1") "old" empty_store).1

first_time :
    persist_record hashes (decision_on "b" "l1") "old" empty_store
    ≡ (ok (decision_on "b" "l1", true), filled)
unfolding after started call reopen open_store load load_file load_envelope load_payload
    load_records adopt check_payload falls mixes_runs mixes_decisions finish_sealed_gc_after_restart
    finish_segment seal_for_run persist_record persist_found lookup_record check_new
    require_integrity answer_found commit_new other_decides persist_records check_batch merge
    leases_from commit_merged write_batch take_all commit_state commit_by atomic_write payload_of
    envelope_of prefixed digest validate_requested_run validate_against lookup insert sorted insort
    same_record complete_record complete_seal distinct_count
first_time = refl

persist_record_again_example :
    (decision_on "b" "l1" ≡ decision_on "b" "l1")
    × (lookup (key_of (decision_on "b" "l1")) filled.records ≡ some (decision_on "b" "l1"))
    × (persist_record hashes (decision_on "b" "l1") "old" filled
        ≡ (ok (decision_on "b" "l1", false), filled))
persist_record_again_example =
    persist_record_again hashes (decision_on "b" "l1") (decision_on "b" "l1") "old" true empty_store
      filled first_time

abbrev two : List ReplacementReleaseRecord
two = decision_on "a" "l2" ∷ decision_on "b" "l1" ∷ []

two-Apart : Pairwise Apart two
two-Apart = (((refl, refl), tt), (tt, tt))

two_decisions : All (IsDecision "run" "yes") two
unfolding complete_record
two_decisions = ((refl, refl, refl), ((refl, refl, refl), tt))

abbrev two_taken : Store
two_taken = after hashes (asked "old" two) (started hashes 4 2 [])

run_taken_example :
    (two_taken.fatal_error ≡ none)
    × All
        (λ r.
          (lookup (key_of r) two_taken.records ≡ some r)
          × (lookup
                (key_of r)
                (open_store hashes two_taken.max_records_per_run two_taken.seal_retention
                  two_taken.disk).records
              ≡ some r))
        two
run_taken_example =
    run_taken hashes 4 2 "run" "old" "yes" two two_taken (omega arith) refl two-Apart two_decisions
      refl
