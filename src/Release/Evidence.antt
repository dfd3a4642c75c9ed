-- ===== src/Release/Evidence.antt =====
-- Evidence, records, and the local release of a record: prism_serve/scheduler/resource_release.py.
use prism_serve.Base.{
  String, Bool, false, not, ◌||◌, Option, none, some, List, [], ◌∷◌, if◌then◌else◌, ◌==◌, nat_key,
  text_key, pair_key, length, Error, value_error, runtime_error, ok, err, Action, ◌>>=◌, ◌>>◌,
}
use prism_serve.Base.Dict.{lookup}
use prism_serve.Base.Order.{distinct_count}
use prism_serve.Scheduler.State.{released, quarantined, PdScheduler}
use prism_serve.Scheduler.Leases.{same, differs, release_quarantined_decode_slot}

pub record ReplacementEvidence : Type 0 where
  pub restart_run_id : String
  pub old_topology_generation : String
  pub new_topology_generation : String
  pub old_termination_proof_digests : List String
  pub fresh_resource_report_digests : List String
  pub excluded_old_operation_digest : String
  pub accepted : Bool
  pub decision_digest : String

-- The key and the cleanup of a ReplacementReleaseRecord, which are what a release reads.
pub record ReleaseRecord : Type 0 where
  pub cleanup_id : String
  pub operation_id : String
  pub lease_id : String

-- `_validate_replacement_evidence`: the first check that fails.
unfoldable pub evidence_error : ReplacementEvidence → Option Error
evidence_error e =
    if not e.accepted
    then some (value_error "restart run is not accepted")
    else if e.old_topology_generation == e.new_topology_generation
    then some (value_error "replacement requires a fresh topology generation")
    else if not (length e.old_termination_proof_digests == 4)
    then some (value_error "replacement requires four old termination proofs")
    else if not (distinct_count e.old_termination_proof_digests == 4)
    then some (value_error "old termination proofs must identify four members")
    else if not (length e.fresh_resource_report_digests == 4)
    then some (value_error "replacement requires four fresh complete reports")
    else if not (distinct_count e.fresh_resource_report_digests == 4)
    then some (value_error "resource reports must identify four members")
    else if e.excluded_old_operation_digest == "" || e.decision_digest == ""
    then some (value_error "replacement evidence digests are required")
    else none

unfoldable pub require_live_quarantined_lease : ReleaseRecord → Action PdScheduler (Unit {0})
require_live_quarantined_lease r s = elim (lookup r.operation_id s.slot_leases) [
  | none ↦ (err (value_error "NO_LIVE_REPLACEMENT_LEASE"), s)
  | some l ↦
      if not (l.lease_id == r.lease_id) || not (same l.state quarantined)
      then (err (value_error "NO_LIVE_REPLACEMENT_LEASE"), s)
      else (ok tt, s)
]

-- `if not released: raise`
unfoldable pub require_released : Bool → Action PdScheduler (Unit {0})
require_released b s =
    if b
    then (ok tt, s)
    else (err (runtime_error "durable replacement record did not release its local lease"), s)

unfoldable pub release_local_record : ReleaseRecord → Bool → Action PdScheduler (Unit {0})
release_local_record r allow_missing s = elim (lookup r.operation_id s.slot_leases) [
  | none ↦ if allow_missing then (ok tt, s) else (err (value_error "NO_LIVE_REPLACEMENT_LEASE"), s)
  | some l ↦
      if not (l.lease_id == r.lease_id)
      then (err (value_error "NO_LIVE_REPLACEMENT_LEASE"), s)
      else if same l.state released
      then (if differs (some r.cleanup_id) l.release_cleanup_id
          then (err (value_error "released replacement lease used another cleanup id"), s)
          else (ok tt, s))
      else if not (same l.state quarantined)
      then (err (value_error "NO_LIVE_REPLACEMENT_LEASE"), s)
      else (release_quarantined_decode_slot r.operation_id (some r.lease_id) (some r.cleanup_id)
            >>= require_released)
          s
]

-- `release_persisted_replacement_batch`
unfoldable pub release_batch : List ReleaseRecord → Action PdScheduler (Unit {0})
release_batch [] s = (ok tt, s)
release_batch (r ∷ rs) s = (release_local_record r false >> release_batch rs) s
