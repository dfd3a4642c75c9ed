-- ===== src/Release/World.antt =====
-- A decision is made durable before the slot is released: prism_serve/scheduler/resource_release.py.
use prism_serve.Base.{
  String, Bool, true, false, ◌||◌, Option, none, some, List, [], ◌∷◌, if◌then◌else◌, is_some, ◌==◌,
  nat_key, text_key, pair_key, triple_key, any, value_error, ok, err, Action, pure, raise_if, ◌>>=◌,
  ◌>>◌,
}
use prism_serve.Base.Order.{before, sorted}
use prism_serve.Scheduler.State.{PdScheduler}
use prism_serve.Store.Records.{ReplacementReleaseRecord, Hashes, empty}
use prism_serve.Store.State.{Store, store_unavailable}
use prism_serve.Store.Decisions.{lookup_record, persist_record}
use prism_serve.Release.Evidence.{
  ReplacementEvidence, ReleaseRecord, evidence_error, require_live_quarantined_lease,
  release_local_record,
}

-- The evaluator's store, where it has one, and its scheduler.
pub record World : Type 0 where
  pub store : Option Store
  pub scheduler : PdScheduler

unfoldable pub with_store {ℓ} : {A : Type ℓ} → Action Store A → Option Store → Action World A
with_store m none w = (err store_unavailable, w)
with_store m (some s) w = let (r, t) = m s in (r, record w { store = some t })

unfoldable pub on_store {ℓ} : {A : Type ℓ} → Action Store A → Action World A
on_store m w = with_store m w.store w

unfoldable pub on_scheduler {ℓ} : {A : Type ℓ} → Action PdScheduler A → Action World A
on_scheduler m w = let (r, t) = m w.scheduler in (r, record w { scheduler = t })

-- `_require_replacement_store`
unfoldable pub require_replacement_store : Action World (Unit {0})
require_replacement_store = on_store (λ s. raise_if (is_some s.fatal_error) store_unavailable s)

-- `set(xs)`
unfoldable pub unique : List String → List String
unique [] = []
unique (x ∷ xs) = if any (λ y. x == y) xs then unique xs else x ∷ unique xs

-- The record of `_replacement_record`.
unfoldable pub record_of :
    String → String → String → List String → ReplacementEvidence → ReplacementReleaseRecord
record_of cleanup_id operation_id lease_id kinds e = record {
  cleanup_id = cleanup_id;
  restart_run_id = e.restart_run_id;
  old_operation_digest = e.excluded_old_operation_digest;
  operation_id = operation_id;
  lease_id = lease_id;
  old_resource_kinds = sorted before (unique kinds);
  decision_digest = e.decision_digest;
}

-- What a release reads of a record.
unfoldable pub local_part : ReplacementReleaseRecord → ReleaseRecord
local_part r = record {
  cleanup_id = r.cleanup_id;
  operation_id = r.operation_id;
  lease_id = r.lease_id;
}

-- `_validate_replacement_evidence`
unfoldable pub validate_replacement_evidence {ℓ} :
    {S : Type ℓ} → ReplacementEvidence → Action S (Unit {0})
validate_replacement_evidence e s = elim (evidence_error e) [
  | none ↦ (ok tt, s)
  | some x ↦ (err x, s)
]

-- The release of what `persist_record` has answered.
unfoldable pub release_stored :
    ReplacementReleaseRecord × Bool → Action World ReplacementReleaseRecord
release_stored p = on_scheduler (release_local_record (local_part p.0) false) >> pure p.0

-- What `release_whole_world_replaced` does with the answer of `lookup`.
unfoldable pub release_found :
    Hashes
    → ReplacementReleaseRecord
    → ReplacementEvidence
    → Option ReplacementReleaseRecord
    → Action World ReplacementReleaseRecord
release_found h r e (some x) = on_scheduler (release_local_record (local_part x) true) >> pure x
release_found h r e none =
    validate_replacement_evidence e
    >> on_scheduler (require_live_quarantined_lease (local_part r))
    >> on_store (persist_record h r e.old_topology_generation)
    >>= release_stored

-- `release_whole_world_replaced`
unfoldable pub release_whole_world_replaced :
    Hashes
    → String
    → String
    → String
    → List String
    → ReplacementEvidence
    → Action World ReplacementReleaseRecord
release_whole_world_replaced h cleanup_id operation_id lease_id kinds e =
    let r = record_of cleanup_id operation_id lease_id kinds e in
    require_replacement_store
    >> raise_if (empty cleanup_id || empty operation_id || empty lease_id)
        (value_error "replacement cleanup/operation/lease ids are required")
    >> on_store (lookup_record h r e.old_topology_generation)
    >>= release_found h r e
