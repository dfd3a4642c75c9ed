-- ===== src/Store/State.antt =====
-- The store, its file, and what every operation asks first:
-- prism_serve/scheduler/replacement_store.py.
use prism_serve.Base.{
  ℕ, String, Bool, true, false, not, ◌&&◌, ◌||◌, Option, none, some, List, [], ◌∷◌, ltb,
  if◌then◌else◌, is_some, ◌==◌, nat_key, text_key, pair_key, triple_key, length, drop, Error,
  class_error, ok, err, Action, raise_if, ◌>>◌, pure,
}
use prism_serve.Base.Dict.{Dict, values}
use prism_serve.Base.Order.{sorted}
use prism_serve.Store.Records.{
  ReplacementReleaseRecord, RecordKey, ReplacementRunSeal, ActiveRun, Payload, Hashes, prefixed,
  digest, record_before, empty,
}

abbrev pub store_format_version : ℕ
store_format_version = 2

pub record Envelope : Type 0 where
  pub format_version : ℕ
  pub payload : Payload
  pub payload_digest : String

-- The file of the store. `malformed` is one that is no JSON of the shape of an envelope.
pub data Contents : Type 0 where
  absent : Contents
  malformed : Contents
  image : Envelope → Contents

-- How a write goes: it is done; it fails before the temporary file is there; it fails with the
-- temporary file left; or it fails after the file has been replaced.
pub data Write : Type 0 where
  done : Write
  not_opened : Write
  not_replaced : Write
  not_synced : Write

-- The directory, and how the next writes will go; those beyond the list are done.
pub record Disk : Type 0 where
  pub orphan : Bool
  pub contents : Contents
  pub writes : List Write

-- `_atomic_write`: whether it returned, and the directory that it leaves.
unfoldable pub atomic_write : Write → Envelope → Disk → Bool × Disk
atomic_write done e d = (true, record d { contents = image e })
atomic_write not_opened e d = (false, d)
atomic_write not_replaced e d = (false, record d { orphan = true })
atomic_write not_synced e d = (false, record d { contents = image e })

abbrev pub next_write : List Write → Write
next_write [] = done
next_write (w ∷ ws) = w

-- The directory with one more write made.
abbrev pub written_once : Disk → Disk
written_once d = record d { writes = drop 1 d.writes }

pub record ReplacementDecisionStore : Type 0 where
  pub max_records_per_run : ℕ
  pub seal_retention : ℕ
  pub fatal_error : Option Error
  pub active_run : Option ActiveRun
  pub records : Dict RecordKey ReplacementReleaseRecord
  pub seals : List ReplacementRunSeal
  pub next_seal_sequence : ℕ
  pub disk : Disk

abbrev pub Store : Type 0
Store = ReplacementDecisionStore

abbrev pub store_unavailable : Error
store_unavailable = class_error "ReplacementStoreUnavailable" "replacement store is not ready"

abbrev pub write_failed : Error
write_failed =
    class_error "ReplacementStoreUnavailable" "replacement store persistence failed closed"

abbrev pub conflict : String → Error
conflict = class_error "ReplacementConflict"

abbrev pub unknown_run : String → Error
unknown_run = class_error "UnknownReplacementRun"

abbrev pub retired_run : Error
retired_run = class_error "RetiredReplacementRun" "RETIRED_REPLACEMENT_RUN"

abbrev pub over_capacity : Error
over_capacity = class_error "ReplacementStoreCapacity" "replacement record capacity exhausted"

-- `ready`
unfoldable pub ready : Store → Bool
ready s = not (is_some s.fatal_error) && ltb (length s.records) s.max_records_per_run

-- `transition_closed`
unfoldable pub transition_closed : Store → Bool
transition_closed s = not (is_some s.fatal_error) && not (is_some s.active_run)

-- `_payload`
unfoldable pub payload_of :
    Option ActiveRun
    → Dict RecordKey ReplacementReleaseRecord
    → List ReplacementRunSeal
    → ℕ
    → Payload
payload_of active records seals n = record {
  active_run = active;
  records = sorted record_before (values records);
  seals = seals;
  next_seal_sequence = n;
}

unfoldable pub envelope_of : Hashes → Payload → Envelope
envelope_of h p = record {
  format_version = store_format_version;
  payload = p;
  payload_digest = prefixed (h.payload_hash p);
}

-- `_require_integrity`
unfoldable pub require_integrity : Action Store (Unit {0})
require_integrity s = raise_if (is_some s.fatal_error) store_unavailable s

-- `_commit_state`, whose write goes as is given.
unfoldable pub commit_by :
    Write
    → Hashes
    → Option ActiveRun
    → Dict RecordKey ReplacementReleaseRecord
    → List ReplacementRunSeal
    → ℕ
    → Action Store (Unit {0})
commit_by w h active records seals n s =
    let (written, disk) =
      atomic_write w (envelope_of h (payload_of active records seals n)) (written_once s.disk) in
    if written
    then (
      ok tt,
      record s {
        active_run = active;
        records = records;
        seals = seals;
        next_seal_sequence = n;
        disk = disk;
      },
    )
    else (err write_failed, record s { fatal_error = some (class_error "OSError" ""); disk = disk })

-- `_commit_state`
unfoldable pub commit_state :
    Hashes
    → Option ActiveRun
    → Dict RecordKey ReplacementReleaseRecord
    → List ReplacementRunSeal
    → ℕ
    → Action Store (Unit {0})
commit_state h active records seals n s =
    commit_by (next_write s.disk.writes) h active records seals n s

-- `_seal_for_run`
unfoldable pub seal_for_run : String → List ReplacementRunSeal → Option ReplacementRunSeal
seal_for_run run [] = none
seal_for_run run (x ∷ xs) = if x.restart_run_id == run then some x else seal_for_run run xs

-- What `_validate_requested_run` asks of the active run.
unfoldable pub validate_against :
    Hashes → Option ActiveRun → String → String → Option String → Action Store (Unit {0})
validate_against h none run old decision = pure tt
validate_against h (some a) run old decision =
    raise_if (not (a.restart_run_id == run)) (unknown_run "another run is still unsealed")
    >> raise_if (not (a.old_topology_generation_digest == digest h old))
        (conflict "replacement run reused with different old generation")
    >> raise_if (elim decision [ none ↦ false | some d ↦ not (a.decision_digest == d) ])
        (conflict "replacement run reused with different decision evidence")

-- `_validate_requested_run`
unfoldable pub validate_requested_run :
    Hashes → String → String → Option String → Action Store (Unit {0})
validate_requested_run h run old decision =
    raise_if (empty run || empty old) (unknown_run "run and old generation are required") >> λ s.
    validate_against h s.active_run run old decision s
