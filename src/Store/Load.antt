-- ===== src/Store/Load.antt =====
-- The restart of the store: prism_serve/scheduler/replacement_store.py.
use prism_serve.Base.{
  ℕ, String, Bool, false, not, ◌&&◌, ◌||◌, Option, none, some, List, [], ◌∷◌, map, ltb, leb,
  if◌then◌else◌, is_some, ◌==◌, nat_key, text_key, pair_key, triple_key, length, any, Error,
  class_error, value_error, Result, ok, err, Action, modify, raise_if, ◌>>◌,
}
use prism_serve.Base.Dict.{Dict, values, lookup, insert}
use prism_serve.Base.Order.{distinct_count}
use prism_serve.Store.Records.{
  ReplacementReleaseRecord, RecordKey, key_of, lease_of, ReplacementRunSeal, ActiveRun, Payload,
  Hashes, prefixed, record_root, empty,
}
use prism_serve.Store.State.{
  store_format_version, Envelope, Contents, absent, malformed, image, Disk, Store, commit_state,
  seal_for_run,
}

abbrev pub store_error : String → Error
store_error = class_error "ReplacementStoreError"

-- `_parse_record`, of a value that has the fields with their types.
unfoldable pub complete_record : ReplacementReleaseRecord → Bool
complete_record r =
    not (empty r.cleanup_id)
    && not (empty r.restart_run_id)
    && not (empty r.old_operation_digest)
    && not (empty r.operation_id)
    && not (empty r.lease_id)
    && not (empty r.decision_digest)

-- `_parse_seal`, of a value that has the fields with their types.
unfoldable pub complete_seal : ReplacementRunSeal → Bool
complete_seal x =
    not (x.seal_sequence == 0)
    && not (empty x.restart_run_id)
    && not (empty x.old_topology_generation_digest)
    && not (empty x.new_topology_generation)
    && not (empty x.decision_digest)
    && not (empty x.record_root_digest)

-- The loop over `payload["records"]`, with the records and the lease keys so far.
unfoldable pub load_records :
    List ReplacementReleaseRecord
    → Dict RecordKey ReplacementReleaseRecord
    → List (String × String)
    → Result (Dict RecordKey ReplacementReleaseRecord)
load_records [] records leases = ok records
load_records (r ∷ rs) records leases =
    let rest = load_records rs (insert (key_of r) r records) (lease_of r ∷ leases) in
    if not (complete_record r)
    then err (store_error "replacement record fields are empty")
    else if is_some (lookup (key_of r) records)
    then err (store_error "duplicate replacement record key")
    else if any (λ l. lease_of r == l) leases
    then err (store_error "duplicate replacement lease decision")
    else rest

-- `any(left >= right for left, right in zip(seals, seals[1:]))`, on the sequence numbers.
unfoldable pub falls : List ReplacementRunSeal → Bool
falls [] = false
falls (x ∷ []) = false
falls (x ∷ y ∷ zs) = leb y.seal_sequence x.seal_sequence || falls (y ∷ zs)

abbrev pub last_sequence : List ReplacementRunSeal → ℕ
last_sequence [] = 0
last_sequence (x ∷ []) = x.seal_sequence
last_sequence (x ∷ y ∷ zs) = last_sequence (y ∷ zs)

unfoldable pub mixes_runs : Option ActiveRun → List ReplacementReleaseRecord → Bool
mixes_runs none rs = false
mixes_runs (some a) rs = any (λ r. not (r.restart_run_id == a.restart_run_id)) rs

unfoldable pub mixes_decisions : Option ActiveRun → List ReplacementReleaseRecord → Bool
mixes_decisions none rs = false
mixes_decisions (some a) rs =
    empty a.decision_digest || any (λ r. not (r.decision_digest == a.decision_digest)) rs

-- The checks of `_load` on a payload whose records have been read.
unfoldable pub check_payload :
    Payload → Dict RecordKey ReplacementReleaseRecord → Action Store (Unit {0})
check_payload p records s =
    (raise_if (ltb s.max_records_per_run (length records))
          (store_error "replacement record cap exceeded")
        >> raise_if (not (length records == 0) && not (is_some p.active_run))
            (store_error "orphan records have no active run")
        >> raise_if (mixes_runs p.active_run (values records))
            (store_error "active segment mixes replacement runs")
        >> raise_if (mixes_decisions p.active_run (values records))
            (store_error "active segment mixes replacement decisions")
        >> raise_if (any (λ x. not (complete_seal x)) p.seals)
            (store_error "replacement seal fields are invalid")
        >> raise_if (ltb s.seal_retention (length p.seals))
            (store_error "replacement seal retention exceeded")
        >> raise_if (falls p.seals) (store_error "replacement seal sequence is not monotonic")
        >> raise_if (not (distinct_count (map (λ x. x.restart_run_id) p.seals) == length p.seals))
            (store_error "duplicate retained replacement seal")
        >> raise_if
            (p.next_seal_sequence == 0
              || (not (length p.seals == 0) && leb p.next_seal_sequence (last_sequence p.seals)))
            (store_error "invalid next replacement seal sequence"))
      s

-- The end of `_load`.
unfoldable pub adopt : Payload → Dict RecordKey ReplacementReleaseRecord → Store → Store
adopt p records s = record s {
  active_run = p.active_run;
  records = records;
  seals = p.seals;
  next_seal_sequence = p.next_seal_sequence;
}

unfoldable pub load_payload : Payload → Action Store (Unit {0})
load_payload p s = elim (load_records p.records [] []) [
  | err e ↦ (err e, s)
  | ok records ↦ (check_payload p records >> modify (adopt p records)) s
]

unfoldable pub load_envelope : Hashes → Envelope → Action Store (Unit {0})
load_envelope h e =
    raise_if (not (e.format_version == store_format_version))
      (store_error "unsupported replacement store version")
    >> raise_if (not (e.payload_digest == prefixed (h.payload_hash e.payload)))
        (store_error "replacement store digest mismatch")
    >> load_payload e.payload

unfoldable pub load_file : Hashes → Contents → Action Store (Unit {0})
load_file h absent s = (ok tt, s)
load_file h malformed s = (err (class_error "JSONDecodeError" ""), s)
load_file h (image e) s = load_envelope h e s

abbrev pub orphan_error : Error
orphan_error = store_error "orphan replacement-store temp file requires operator review"

-- `_load`
unfoldable pub load : Hashes → Action Store (Unit {0})
load h s = if s.disk.orphan then (err orphan_error, s) else load_file h s.disk.contents s

-- Whether a seal fits the segment that it closes.
unfoldable pub fits : Hashes → ReplacementRunSeal → ActiveRun → List ReplacementReleaseRecord → Bool
fits h x a rs =
    (x.record_count == length rs)
    && (x.record_root_digest == record_root h rs)
    && (x.old_topology_generation_digest == a.old_topology_generation_digest)
    && (x.decision_digest == a.decision_digest)

-- What `_finish_sealed_gc_after_restart` does with the active run.
unfoldable pub finish_segment : Hashes → Option ActiveRun → Action Store (Unit {0})
finish_segment h none s = (ok tt, s)
finish_segment h (some a) s = elim (seal_for_run a.restart_run_id s.seals) [
  | none ↦ (ok tt, s)
  | some x ↦
      if not (fits h x a (values s.records))
      then (err (store_error "sealed replacement segment root/count mismatch"), s)
      else commit_state h none [] s.seals s.next_seal_sequence s
]

-- `_finish_sealed_gc_after_restart`
unfoldable pub finish_sealed_gc_after_restart : Hashes → Action Store (Unit {0})
finish_sealed_gc_after_restart h s = finish_segment h s.active_run s

-- A store before it has read its file.
abbrev pub blank : ℕ → ℕ → Disk → Store
blank max_records retention d = record {
  max_records_per_run = max_records;
  seal_retention = retention;
  fatal_error = none;
  active_run = none;
  records = [];
  seals = [];
  next_seal_sequence = 1;
  disk = d;
}

-- `except Exception as exc: self._fatal_error = ...`
abbrev pub fail_closed : Result (Unit {0}) × Store → Store
fail_closed (ok u, s) = s
fail_closed (err e, s) = record s { fatal_error = some e }

-- What `__init__` does once the caps are found positive.
unfoldable pub open_store : Hashes → ℕ → ℕ → Disk → Store
open_store h max_records retention d =
    fail_closed ((load h >> finish_sealed_gc_after_restart h) (blank max_records retention d))

-- `ReplacementDecisionStore(root, ...)`
unfoldable pub new_store : Hashes → ℕ → ℕ → Disk → Result Store
new_store h max_records retention d =
    if max_records == 0
    then err (value_error "replacement record cap must be positive")
    else if retention == 0
    then err (value_error "replacement seal retention must be positive")
    else ok (open_store h max_records retention d)
