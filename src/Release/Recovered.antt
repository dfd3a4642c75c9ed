-- ===== src/Release/Recovered.antt =====
-- No slot is released before its decision is durable: prism_serve/scheduler/resource_release.py.
use prism_serve.Base.{
  ℕ, String, ◌≡◌, sym, ap, subst, ◌∙◌, ◌⊎◌, inl, inr, true, false, ◌||◌, Option, none, some, List,
  nat_key, text_key, pair_key, triple_key, All, value_error, Action, pure, raise_if, ◌>>=◌, ◌>>◌,
  bind_end, bind_end,
}
use prism_serve.Base.Dict.{lookup}
use prism_serve.Scheduler.State.{PdScheduler}
use prism_serve.Store.Records.{ReplacementReleaseRecord, key_of, Hashes, empty}
use prism_serve.Store.State.{Write, Store}
use prism_serve.Store.Load.{complete_record, open_store}
use prism_serve.Store.Decisions.{lookup_record, persist_record}
use prism_serve.Store.Durable.{IsGood}
use prism_serve.Store.Recall.{filed, open_store-filed, lookup-reread}
use prism_serve.Store.Lookups.{refused, found, missing, lookup_record-cases}
use prism_serve.Store.Keeping.{persist_record-IsGood}
use prism_serve.Store.History.{Call, after, IsComplete, started, after-IsGood, started-IsGood}
use prism_serve.Release.Evidence.{
  ReplacementEvidence, require_live_quarantined_lease, release_local_record,
}
use prism_serve.Release.World.{
  World, with_store, on_scheduler, validate_replacement_evidence, local_part, release_found,
  release_stored, on_store, require_replacement_store, release_whole_world_replaced, record_of,
}
use prism_serve.Release.Durable.{Recorded, evidence_unchanged, release-Backed}

-- The process that is started next on the directory is sound and holds the record.
abbrev pub Recovered : Hashes → ReplacementReleaseRecord → Option Store → Type 0
Recovered h r none = ⊥
Recovered h r (some s) =
    let s' = open_store h s.max_records_per_run s.seal_retention s.disk in
    (s'.fatal_error ≡ none) × (lookup (key_of r) s'.records ≡ some r)

module _ (h : Hashes) where
  -- The store is one that a row of calls may leave.
  abbrev KeptStore : Option Store → Type 0
  KeptStore none = Unit
  KeptStore (some s) = IsGood h s

  abbrev Kept : World → Type 0
  Kept w = KeptStore w.store

  then-Kept :
      {A B : Type 0} (m : Action World A) (k : A → Action World B) (w : World)
      → Kept (m w).1
      → ((a : A) (t : World) → Kept t → Kept (k a t).1)
      → Kept ((m >>= k) w).1
  then-Kept m k w v next =
      bind_end (λ p. Kept p.1) m k w (λ a t e. next a t (subst (λ p. Kept p.1) e v))
        (λ x t e. subst (λ p. Kept p.1) e v)

  with_store-Kept :
      {A : Type 0} (m : Action Store A) (o : Option Store) (w : World)
      → KeptStore o
      → Kept w
      → ((s : Store) → IsGood h s → IsGood h (m s).1)
      → Kept (with_store m o w).1
  unfolding with_store
  with_store-Kept m none w g v keeps = v
  with_store-Kept m (some s) w g v keeps = keeps s g

  lookup_record-IsGood :
      (r : ReplacementReleaseRecord) (old : String) (s : Store)
      → IsGood h s
      → IsGood h (lookup_record h r old s).1
  lookup_record-IsGood r old s g = elim (lookup_record-cases h r old s) [
    | refused x p ↦ subst (λ q. IsGood h q.1) (sym p) g
    | found i p q ↦ subst (λ q. IsGood h q.1) (sym p) g
    | missing p q ↦ subst (λ q. IsGood h q.1) (sym p) g
  ]

  required-Kept : (w : World) → Kept w → Kept (require_replacement_store w).1
  unfolding require_replacement_store on_store
  required-Kept w v = with_store-Kept _ w.store w v v (λ s g. g)

  evidence-Kept :
      (e : ReplacementEvidence) (w : World) → Kept w → Kept (validate_replacement_evidence e w).1
  evidence-Kept e w v = subst Kept (sym (evidence_unchanged e w)) v

  scheduler-Kept :
      {A : Type 0} (m : Action PdScheduler A) (w : World) → Kept w → Kept (on_scheduler m w).1
  unfolding on_scheduler
  scheduler-Kept m w v = v

  released-Kept :
      (r : ReplacementReleaseRecord) (ev : ReplacementEvidence)
      (o : Option ReplacementReleaseRecord) (w : World)
      → complete_record r ≡ true
      → Kept w
      → Kept (release_found h r ev o w).1
  unfolding release_found release_stored on_store
  released-Kept r ev (some x) w c v =
      then-Kept (on_scheduler (release_local_record (local_part x) true)) (λ _. pure x) w
        (scheduler-Kept (release_local_record (local_part x) true) w v) (λ a t g. g)
  released-Kept r ev none w c v =
      let live = on_scheduler (require_live_quarantined_lease (local_part r)) in
      let kept = on_store (persist_record h r ev.old_topology_generation) in
      then-Kept (validate_replacement_evidence ev >> live >> kept) release_stored w
        (then-Kept (validate_replacement_evidence ev >> live) (λ _. kept) w
          (then-Kept (validate_replacement_evidence ev) (λ _. live) w (evidence-Kept ev w v)
            (λ a t g. scheduler-Kept (require_live_quarantined_lease (local_part r)) t g))
          (λ a t g.
            with_store-Kept (persist_record h r ev.old_topology_generation) t.store t g g
              (λ s b. persist_record-IsGood h r ev.old_topology_generation s b c)))
        (λ a t g.
          then-Kept (on_scheduler (release_local_record (local_part a.0) false)) (λ _. pure a.0) t
            (scheduler-Kept (release_local_record (local_part a.0) false) t g) (λ b u f. f))

  release-Kept :
      (cleanup_id operation_id lease_id : String) (kinds : List String) (ev : ReplacementEvidence)
      (w : World)
      → complete_record (record_of cleanup_id operation_id lease_id kinds ev) ≡ true
      → Kept w
      → Kept (release_whole_world_replaced h cleanup_id operation_id lease_id kinds ev w).1
  unfolding release_whole_world_replaced on_store
  release-Kept cleanup_id operation_id lease_id kinds ev w c v =
      let r = record_of cleanup_id operation_id lease_id kinds ev in
      let ids =
        raise_if (empty cleanup_id || empty operation_id || empty lease_id)
          (value_error "replacement cleanup/operation/lease ids are required") in
      let find = on_store (lookup_record h r ev.old_topology_generation) in
      then-Kept (require_replacement_store >> ids >> find) (release_found h r ev) w
        (then-Kept (require_replacement_store >> ids) (λ _. find) w
          (then-Kept require_replacement_store (λ _. ids) w (required-Kept w v) (λ a t g. g))
          (λ a t g.
            with_store-Kept (lookup_record h r ev.old_topology_generation) t.store t g g
              (λ s b. lookup_record-IsGood r ev.old_topology_generation s b)))
        (λ o t g. released-Kept r ev o t c g)

  Recorded-Recovered :
      (r : ReplacementReleaseRecord) (o : Option Store)
      → KeptStore o
      → Recorded r o
      → Recovered h r o
  unfolding filed
  Recorded-Recovered r none g q = q
  Recorded-Recovered r (some s) g (f, q) =
      let d = g.durable f in
      let e = open_store-filed h s d f in
      (
        ap (λ t. t.fatal_error) e ∙ f,
        ap (λ t. lookup (key_of r) t.records) e
            ∙ lookup-reread (key_of r) s.records d.named d.loadable.apart
            ∙ q,
      )

-- When the evaluator releases a record of a replaced world over a store that any row of calls has
-- left, writes that fail at any point among them: in the state that is left, whether the call returns
-- or raises, the scheduler is as it was, or the process that is started next on the directory is sound
-- and holds the record. So no slot is released on a decision that a restart would not find. (The
-- records have their fields, and the seals name a generation.)
pub release_whole_world_replaced-Backed :
    (h : Hashes) (max_records retention : ℕ) (ws : List Write) (cs : List Call)
    (cleanup_id operation_id lease_id : String) (kinds : List String) (ev : ReplacementEvidence)
    (w : World)
    → All IsComplete cs
    → w.store ≡ some (after h cs (started h max_records retention ws))
    → complete_record (record_of cleanup_id operation_id lease_id kinds ev) ≡ true
    → let w' = (release_whole_world_replaced h cleanup_id operation_id lease_id kinds ev w).1 in
      (w'.scheduler ≡ w.scheduler)
      ⊎ Recovered h (record_of cleanup_id operation_id lease_id kinds ev) w'.store
release_whole_world_replaced-Backed h m n ws cs cleanup_id operation_id lease_id kinds ev w p e c =
    let good = subst (KeptStore h) (sym e) (after-IsGood h cs _ p (started-IsGood h m n ws)) in
    elim (release-Backed h cleanup_id operation_id lease_id kinds ev w) [
      | inl same ↦ inl same
      | inr there ↦ inr (
          Recorded-Recovered h _ _
            (release-Kept h cleanup_id operation_id lease_id kinds ev w c good) there)
    ]
