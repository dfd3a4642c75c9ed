-- ===== src/Store/Decisions.antt =====
-- Looking up and persisting decisions: prism_serve/scheduler/replacement_store.py.
use prism_serve.Base.{
  String, Bool, true, false, not, ◌&&◌, ◌||◌, Option, none, some, List, [], ◌∷◌, ltb, leb,
  if◌then◌else◌, is_some, get_or, ◌==◌, nat_key, text_key, pair_key, triple_key, length, any,
  key_error, Result, ok, err, Action, pure, raise_if, ◌>>=◌, ◌>>◌, raise, give,
}
use prism_serve.Base.Dict.{Dict, values, lookup, insert}
use prism_serve.Store.Records.{
  ReplacementReleaseRecord, RecordKey, key_of, lease_of, ActiveRun, Hashes, digest, same_record,
  empty,
}
use prism_serve.Store.State.{
  Store, conflict, unknown_run, retired_run, over_capacity, require_integrity, commit_state,
  seal_for_run, validate_requested_run,
}

-- `validate_active_run`
unfoldable pub validate_active_run : Hashes → String → String → String → Action Store (Unit {0})
validate_active_run h run old decision = require_integrity >> λ s.
    if not (is_some s.active_run)
    then (err (unknown_run "no active replacement segment"), s)
    else validate_requested_run h run old (some decision) s

-- `_seal_for_run(run) is not None`
abbrev pub retired : String → Store → Bool
retired run s = is_some (seal_for_run run s.seals)

-- What `lookup` asks where the key of the record is not there.
unfoldable pub check_new : Hashes → ReplacementReleaseRecord → String → Action Store (Unit {0})
check_new h r old =
    (λ s. raise_if (retired r.restart_run_id s) retired_run s)
    >> validate_requested_run h r.restart_run_id old (some r.decision_digest)

-- What `lookup` answers where a record has been found, or none.
unfoldable pub answer_found :
    Hashes
    → ReplacementReleaseRecord
    → String
    → Option ReplacementReleaseRecord
    → Action Store (Option ReplacementReleaseRecord)
answer_found h r old none = check_new h r old >> pure none
answer_found h r old (some e) =
    raise_if (not (same_record e r))
      (conflict "replacement key reused with different record/digest")
    >> pure (some e)

-- `lookup`
unfoldable pub lookup_record :
    Hashes → ReplacementReleaseRecord → String → Action Store (Option ReplacementReleaseRecord)
lookup_record h r old =
    require_integrity >> λ s. answer_found h r old (lookup (key_of r) s.records) s

-- Whether another record decides on the lease of `r`.
unfoldable pub other_decides : ReplacementReleaseRecord → List ReplacementReleaseRecord → Bool
other_decides r = any (λ o. (lease_of o == lease_of r) && not (key_of o == key_of r))

abbrev pub run_of : Hashes → String → String → String → ActiveRun
run_of h run old decision = record {
  restart_run_id = run;
  old_topology_generation_digest = digest h old;
  decision_digest = decision;
}

abbrev pub newly : ReplacementReleaseRecord → ReplacementReleaseRecord × Bool
newly r = (r, true)

-- The checks and the commit of `persist_record`, of a record that is not there.
unfoldable pub commit_new : Hashes → ReplacementReleaseRecord → String → Action Store (Unit {0})
commit_new h r old s =
    (raise_if (leb s.max_records_per_run (length s.records)) over_capacity
        >> raise_if (other_decides r (values s.records))
            (conflict "replacement lease already has a different decision key")
        >> commit_state h
            (some (get_or s.active_run (run_of h r.restart_run_id old r.decision_digest)))
            (insert (key_of r) r s.records) s.seals s.next_seal_sequence)
      s

-- What `persist_record` does with the answer of `lookup`.
unfoldable pub persist_found :
    Hashes
    → ReplacementReleaseRecord
    → String
    → Option ReplacementReleaseRecord
    → Action Store (ReplacementReleaseRecord × Bool)
persist_found h r old none = commit_new h r old >> pure (newly r)
persist_found h r old (some e) = pure (e, false)

-- `persist_record`
unfoldable pub persist_record :
    Hashes → ReplacementReleaseRecord → String → Action Store (ReplacementReleaseRecord × Bool)
persist_record h r old = lookup_record h r old >>= persist_found h r old

-- `lease_key in leases and leases[lease_key] != record.key`, of `leases.get(lease_key)`.
abbrev pub taken : Option RecordKey → RecordKey → Bool
taken none key = false
taken (some k) key = not (k == key)

-- The loop of `persist_records`: the candidate records, the leases with their keys, and whether
-- anything has changed.
unfoldable pub merge :
    List ReplacementReleaseRecord
    → Dict RecordKey ReplacementReleaseRecord
    → Dict (String × String) RecordKey
    → Bool
    → Result (Dict RecordKey ReplacementReleaseRecord × Bool)
merge [] candidate leases changed = ok (candidate, changed)
merge (r ∷ rs) candidate leases changed =
    let kept = merge rs candidate leases changed in
    let added =
      merge rs (insert (key_of r) r candidate) (insert (lease_of r) (key_of r) leases) true in
    elim (lookup (key_of r) candidate) [
      | some e ↦
          if not (same_record e r)
          then err (conflict "replacement key reused with different record/digest")
          else kept
      | none ↦
          if taken (lookup (lease_of r) leases) (key_of r)
          then err (conflict "replacement lease already has a different decision key")
          else added
    ]

-- `{(record.operation_id, record.lease_id): record.key for record in ...}`
unfoldable pub leases_from :
    List ReplacementReleaseRecord
    → Dict (String × String) RecordKey
    → Dict (String × String) RecordKey
leases_from [] leases = leases
leases_from (r ∷ rs) leases = leases_from rs (insert (lease_of r) (key_of r) leases)

-- `decision_digest or (records[0].decision_digest if records else "")`
abbrev pub requested_decision : Option String → List ReplacementReleaseRecord → String
requested_decision none [] = ""
requested_decision none (r ∷ rs) = r.decision_digest
requested_decision (some d) [] = d
requested_decision (some d) (r ∷ rs) = if empty d then r.decision_digest else d

-- `tuple(candidate[record.key] for record in records)`
unfoldable pub take_all :
    List ReplacementReleaseRecord
    → Dict RecordKey ReplacementReleaseRecord
    → Result (List ReplacementReleaseRecord)
take_all [] d = ok []
take_all (r ∷ rs) d =
    let rest = take_all rs d in
    elim (lookup (key_of r) d) [
      | none ↦ err key_error
      | some e ↦ elim rest [ ok es ↦ ok (e ∷ es) | err x ↦ err x ]
    ]

-- What `persist_records` writes of the merged candidate.
unfoldable pub write_batch :
    Hashes → ActiveRun → Dict RecordKey ReplacementReleaseRecord → Bool → Action Store (Unit {0})
write_batch h run candidate changed s =
    (raise_if (ltb s.max_records_per_run (length candidate)) over_capacity
        >> (if changed || not (is_some s.active_run)
            then commit_state h (some run) candidate s.seals s.next_seal_sequence
            else pure tt))
      s

-- What `persist_records` does with the merge.
unfoldable pub commit_merged :
    Hashes
    → List ReplacementReleaseRecord
    → ActiveRun
    → Result (Dict RecordKey ReplacementReleaseRecord × Bool)
    → Action Store (List ReplacementReleaseRecord)
commit_merged h rs run (err e) = raise e
commit_merged h rs run (ok (candidate, changed)) =
    write_batch h run candidate changed >> give (take_all rs candidate)

-- The checks of `persist_records`.
unfoldable pub check_batch :
    Hashes → List ReplacementReleaseRecord → String → String → String → Action Store (Unit {0})
check_batch h rs run old decision =
    require_integrity
    >> (λ s. raise_if (retired run s) retired_run s)
    >> raise_if (empty decision) (conflict "replacement batch requires a decision digest")
    >> raise_if (any (λ r. not (r.decision_digest == decision)) rs)
        (conflict "replacement batch mixes decisions")
    >> validate_requested_run h run old (some decision)
    >> raise_if (any (λ r. not (r.restart_run_id == run)) rs)
        (conflict "replacement batch mixes restart runs")

-- `persist_records`
unfoldable pub persist_records :
    Hashes
    → List ReplacementReleaseRecord
    → String
    → String
    → Option String
    → Action Store (List ReplacementReleaseRecord)
persist_records h rs run old given =
    let decision = requested_decision given rs in
    check_batch h rs run old decision >> λ s.
    commit_merged h rs (run_of h run old decision)
      (merge rs s.records (leases_from (values s.records) []) false) s
