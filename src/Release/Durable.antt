-- ===== src/Release/Durable.antt =====
-- A slot is released after its decision is in the store: prism_serve/scheduler/resource_release.py.
use prism_serve.Release.Evidence.{
  require_live_quarantined_lease, ReplacementEvidence, ReleaseRecord, evidence_error,
  release_local_record,
}
use prism_serve.Base.{
  String, ◌≡◌, refl, sym, ap, subst, ◌∙◌, ◌⊎◌, inl, inr, Bool, true, false, not, ◌||◌, Option, none,
  some, List, Bool-cases, Option-cases, is_some, ◌==◌, nat_key, text_key, pair_key, triple_key,
  value_error, Result, ok, err, Action, pure, raise_if, ◌>>=◌, ◌>>◌, bind_end,
}
use prism_serve.Base.Dict.{lookup}
use prism_serve.Scheduler.State.{quarantined, PdScheduler}
use prism_serve.Scheduler.Leases.{same}
use prism_serve.Store.Records.{ReplacementReleaseRecord, key_of, Hashes, empty}
use prism_serve.Store.State.{Store, store_unavailable}
use prism_serve.Store.Decisions.{lookup_record, persist_record}
use prism_serve.Store.Lookups.{refused, found, missing, lookup_record-cases}
use prism_serve.Store.Again.{Persisted, persist_record-Persisted}
use prism_serve.Release.World.{
  World, with_store, on_scheduler, validate_replacement_evidence, local_part, release_found,
  release_stored, on_store, require_replacement_store, release_whole_world_replaced, record_of,
}

-- The store is sound and holds the record.
abbrev pub Recorded : ReplacementReleaseRecord → Option Store → Type 0
Recorded r none = ⊥
Recorded r (some s) = (s.fatal_error ≡ none) × (lookup (key_of r) s.records ≡ some r)

module _ (r : ReplacementReleaseRecord) (sch : PdScheduler) where
  -- The scheduler is as it was, or the record is in the store.
  abbrev pub Backed : World → Type 0
  Backed w = (w.scheduler ≡ sch) ⊎ Recorded r w.store

  -- The scheduler is as it was, and what is answered is the record, in the store.
  abbrev Looked : Result (Option ReplacementReleaseRecord) × World → Type 0
  Looked (err e, w) = w.scheduler ≡ sch
  Looked (ok none, w) = w.scheduler ≡ sch
  Looked (ok (some x), w) = (x ≡ r) × Recorded r w.store

  abbrev Stored : Result (ReplacementReleaseRecord × Bool) × World → Type 0
  Stored (err e, w) = w.scheduler ≡ sch
  Stored (ok p, w) = Recorded r w.store

  looked :
      (h : Hashes) (old : String) (o : Option Store) (w : World)
      → w.scheduler ≡ sch
      → Looked (with_store (lookup_record h r old) o w)
  unfolding with_store
  looked h old none w e = e
  looked h old (some s) w e = elim (lookup_record-cases h r old s) [
    | refused x p ↦ subst (λ q. Looked (q.0, record w { store = some q.1 })) (sym p) e
    | found i p q ↦ subst (λ q. Looked (q.0, record w { store = some q.1 })) (sym p) (refl, (i, q))
    | missing p q ↦ subst (λ q. Looked (q.0, record w { store = some q.1 })) (sym p) e
  ]

  persisted :
      (w : World) (p : Result (ReplacementReleaseRecord × Bool) × Store)
      → w.scheduler ≡ sch
      → Persisted r p
      → Stored (p.0, record w { store = some p.1 })
  persisted w (ok (x, b), t) e q = (q.1, q.2)
  persisted w (err x, t) e q = e

  stored :
      (h : Hashes) (old : String) (o : Option Store) (w : World)
      → w.scheduler ≡ sch
      → Stored (with_store (persist_record h r old) o w)
  unfolding with_store
  stored h old none w e = e
  stored h old (some s) w e =
      persisted w (persist_record h r old s) e (persist_record-Persisted h r old s)

  -- A step on the scheduler leaves the store.
  released-Backed :
      {A B : Type 0} (m : Action PdScheduler A) (b : B) (w : World)
      → Recorded r w.store
      → Backed ((on_scheduler m >>= λ _. pure b) w).1
  unfolding on_scheduler
  released-Backed m b w h =
      bind_end (λ p. Backed p.1) (on_scheduler m) (λ _. pure b) w
        (λ a t e. inr (subst (Recorded r) (ap (λ p. p.1.store) e) h))
        (λ x t e. inr (subst (Recorded r) (ap (λ p. p.1.store) e) h))

live_unchanged : (r : ReleaseRecord) (s : PdScheduler) → (require_live_quarantined_lease r s).1 ≡ s
unfolding require_live_quarantined_lease
live_unchanged r s = elim (Option-cases (lookup r.operation_id s.slot_leases)) [
  | inl e ↦ rw (e, require_live_quarantined_lease) refl
  | inr (l, e) ↦
      elim (Bool-cases (not (l.lease_id == r.lease_id) || not (same l.state quarantined))) [
        | inl bad ↦ rw (e, bad, require_live_quarantined_lease) refl
        | inr good ↦ rw (e, good, require_live_quarantined_lease) refl
      ]
]

pub evidence_unchanged :
    {S : Type 0} (e : ReplacementEvidence) (s : S) → (validate_replacement_evidence e s).1 ≡ s
unfolding validate_replacement_evidence
evidence_unchanged e s = elim (Option-cases (evidence_error e)) [
  | inl p ↦ rw (p, validate_replacement_evidence) refl
  | inr (x, p) ↦ rw (p, validate_replacement_evidence) refl
]

with_store-scheduler :
    {A : Type 0} (m : Action Store A) (o : Option Store) (w : World)
    → (with_store m o w).1.scheduler ≡ w.scheduler
unfolding with_store
with_store-scheduler m none w = refl
with_store-scheduler m (some s) w = refl

-- The state after a step, from what the step answered.
state_of : {S A : Type 0} {p : Result A × S} (x : Result A) (t : S) → p ≡ (x, t) → t ≡ p.1
state_of x t e = sym (ap (λ q. q.1) e)

module _ (h : Hashes) (ev : ReplacementEvidence) (r : ReplacementReleaseRecord)
    (sch : PdScheduler) where
  checked_scheduler :
      (w : World)
      → w.scheduler ≡ sch
      → ((validate_replacement_evidence ev
            >> on_scheduler (require_live_quarantined_lease (local_part r)))
          w).1.scheduler
        ≡ sch
  unfolding on_scheduler
  checked_scheduler w e =
      bind_end (λ p. p.1.scheduler ≡ sch) (validate_replacement_evidence ev)
        (λ _. on_scheduler (require_live_quarantined_lease (local_part r))) w
        (λ a t p.
          live_unchanged (local_part r) t.scheduler
          ∙ ap (λ x. x.scheduler) (state_of _ t p ∙ evidence_unchanged ev w)
          ∙ e)
        (λ x t p. ap (λ x. x.scheduler) (state_of _ t p ∙ evidence_unchanged ev w) ∙ e)

  after_checks :
      (w : World)
      → w.scheduler ≡ sch
      → Stored r sch (
          (validate_replacement_evidence ev
              >> on_scheduler (require_live_quarantined_lease (local_part r))
              >> on_store (persist_record h r ev.old_topology_generation))
            w)
  unfolding on_store
  after_checks w e =
      bind_end (Stored r sch)
        (validate_replacement_evidence ev
          >> on_scheduler (require_live_quarantined_lease (local_part r)))
        (λ _. on_store (persist_record h r ev.old_topology_generation)) w
        (λ a t p.
          stored r sch h ev.old_topology_generation t.store t
            (ap (λ x. x.scheduler) (state_of _ t p) ∙ checked_scheduler w e))
        (λ x t p. ap (λ x. x.scheduler) (state_of _ t p) ∙ checked_scheduler w e)

  found-Backed :
      (o : Option ReplacementReleaseRecord) (w : World)
      → Looked r sch (ok o, w)
      → Backed r sch (release_found h r ev o w).1
  unfolding release_found release_stored on_store
  found-Backed (some x) w l =
      released-Backed r sch (release_local_record (local_part x) true) x w l.1
  found-Backed none w l =
      let c =
        validate_replacement_evidence ev
        >> on_scheduler (require_live_quarantined_lease (local_part r)) in
      let p = on_store (persist_record h r ev.old_topology_generation) in
      bind_end (λ q. Backed r sch q.1) (c >> p) release_stored w
        (λ a t e.
          released-Backed r sch (release_local_record (local_part a.0) false) a.0 t
            (subst (Stored r sch) e (after_checks w l)))
        (λ x t e. inl (subst (Stored r sch) e (after_checks w l)))

  required_scheduler :
      (ids : Bool) (w : World)
      → w.scheduler ≡ sch
      → ((require_replacement_store
            >> raise_if ids (value_error "replacement cleanup/operation/lease ids are required"))
          w).1.scheduler
        ≡ sch
  unfolding on_store require_replacement_store
  required_scheduler ids w e =
      let kept =
        with_store-scheduler (λ s. raise_if (is_some s.fatal_error) store_unavailable s) w.store w
        ∙ e in
      bind_end (λ p. p.1.scheduler ≡ sch) require_replacement_store
        (λ _. raise_if ids (value_error "replacement cleanup/operation/lease ids are required")) w
        (λ a t p. ap (λ x. x.scheduler) (state_of _ t p) ∙ kept)
        (λ x t p. ap (λ x. x.scheduler) (state_of _ t p) ∙ kept)

  -- What the first steps answer, to where the store is asked.
  first_steps :
      (ids : Bool) (w : World)
      → w.scheduler ≡ sch
      → Looked r sch (
          (require_replacement_store
              >> raise_if ids (value_error "replacement cleanup/operation/lease ids are required")
              >> on_store (lookup_record h r ev.old_topology_generation))
            w)
  unfolding on_store require_replacement_store
  first_steps ids w e =
      bind_end (Looked r sch)
        (require_replacement_store
          >> raise_if ids (value_error "replacement cleanup/operation/lease ids are required"))
        (λ _. on_store (lookup_record h r ev.old_topology_generation)) w
        (λ a t p.
          looked r sch h ev.old_topology_generation t.store t
            (ap (λ x. x.scheduler) (state_of _ t p) ∙ required_scheduler ids w e))
        (λ x t p. ap (λ x. x.scheduler) (state_of _ t p) ∙ required_scheduler ids w e)

-- Whether the call returns or raises.
pub release-Backed :
    (h : Hashes) (cleanup_id operation_id lease_id : String) (kinds : List String)
    (ev : ReplacementEvidence) (w : World)
    → Backed
        (record_of cleanup_id operation_id lease_id kinds ev)
        w.scheduler
        (release_whole_world_replaced h cleanup_id operation_id lease_id kinds ev w).1
unfolding release_whole_world_replaced
release-Backed h cleanup_id operation_id lease_id kinds ev w =
    let r = record_of cleanup_id operation_id lease_id kinds ev in
    let ids = empty cleanup_id || empty operation_id || empty lease_id in
    bind_end (λ p. Backed r w.scheduler p.1)
      (require_replacement_store
        >> raise_if ids (value_error "replacement cleanup/operation/lease ids are required")
        >> on_store (lookup_record h r ev.old_topology_generation))
      (release_found h r ev) w
      (λ o t e.
        found-Backed h ev r w.scheduler o t
          (subst (Looked r w.scheduler) e (first_steps h ev r w.scheduler ids w refl)))
      (λ x t e. inl (subst (Looked r w.scheduler) e (first_steps h ev r w.scheduler ids w refl)))
