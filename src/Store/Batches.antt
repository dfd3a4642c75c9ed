-- ===== src/Store/Batches.antt =====
-- Persisting a batch of decisions keeps the store in order:
-- prism_serve/scheduler/replacement_store.py.
use prism_serve.Store.Tables.{IsRecordOf, IsSegment}
use prism_serve.Store.LeaseKeys.{LeaseTable, IsLeases}
use prism_serve.Base.{
  String, ◌≡◌, refl, sym, subst, inl, inr, Bool, true, false, not, ◌||◌, Option, none, some, List,
  [], ◌∷◌, arith, ltb, if◌then◌else◌, Bool-cases, Option-cases, is_some, ◌==◌, nat_key, text_key,
  pair_key, triple_key, str_eq_iff, length, any, All, Result, ok, err, pure, raise_if, Checked,
  raise_if-Checked, then-Checked, reading-Checked, weaken-Checked, after-Checked, after_give,
}
use prism_serve.Base.Dict.{values, lookup, insert}
use prism_serve.Store.Records.{
  ReplacementReleaseRecord, key_of, lease_of, ActiveRun, Hashes, same_record, digest, empty,
}
use prism_serve.Store.State.{
  Store, conflict, retired_run, over_capacity, commit_state, validate_requested_run,
}
use prism_serve.Store.Load.{complete_record}
use prism_serve.Store.Durable.{Table, IsGood, IsWritable, commit_state-IsGood}
use prism_serve.Store.Decisions.{
  retired, taken, merge, leases_from, requested_decision, run_of, take_all, write_batch,
  commit_merged, check_batch, persist_records,
}
use prism_serve.Store.Requests.{Matching, require_integrity-Checked, validate_requested_run-Checked}
use prism_serve.Store.LeaseKeys.{
  LeaseTable, IsLeases, leases_from-IsLeases, taken-alone, insert-IsLeases,
}
use prism_serve.Store.Tables.{IsSegment, IsRecordOf, insert-IsSegment}
use prism_serve.Store.Keeping.{
  segment_run, durable-IsSegment, segment-IsWritable, request-IsRecordOf,
}

-- What a merge answers: a segment, or a refusal.
abbrev Merged : ActiveRun → Result (Table × Bool) → Type 0
Merged a (ok p) = IsSegment a p.0
Merged a (err e) = Unit

merge-Merged :
    (a : ActiveRun) (rs : List ReplacementReleaseRecord) (t : Table) (ls : LeaseTable) (b : Bool)
    → All (IsRecordOf a) rs
    → IsSegment a t
    → IsLeases ls t
    → Merged a (merge rs t ls b)
unfolding merge
merge-Merged a [] t ls b m s g = s
merge-Merged a (r ∷ rs) t ls b m s g = elim (Option-cases (lookup (key_of r) t)) [
  | inr (e, f) ↦ elim (Bool-cases (same_record e r)) [
    | inl same ↦ rw (f, same, merge) (merge-Merged a rs t ls b m.1 s g)
    | inr other ↦ rw (f, other, merge) tt
  ]
  | inl f ↦ elim (Bool-cases (taken (lookup (lease_of r) ls) (key_of r))) [
    | inl held ↦ rw (f, held, merge) tt
    | inr free ↦
        rw (f, free, merge)
          (merge-Merged a rs (insert (key_of r) r t) (insert (lease_of r) (key_of r) ls) true m.1
            (insert-IsSegment a r t s m.0 f (taken-alone r ls t g f free))
            (insert-IsLeases r ls t g f))
  ]
]

-- What the checks of a batch establish.
record IsRequest (h : Hashes) (rs : List ReplacementReleaseRecord) (run old decision : String)
    (s : Store) : Type 0 where
  intact : s.fatal_error ≡ none
  unsealed : retired run s ≡ false
  decided : empty decision ≡ false
  decisions : any (λ r. not (r.decision_digest == decision)) rs ≡ false
  matching : Matching h s.active_run run old decision
  runs : any (λ r. not (r.restart_run_id == run)) rs ≡ false

check_batch-Checked :
    (h : Hashes) (rs : List ReplacementReleaseRecord) (run old decision : String) (s : Store)
    → Checked (check_batch h rs run old decision) s (IsRequest h rs run old decision s)
unfolding check_batch
check_batch-Checked h rs run old decision s =
    weaken-Checked _ s
      (λ q. record {
        intact = q.0.0.0.0.0;
        unsealed = q.0.0.0.0.1;
        decided = q.0.0.0.1;
        decisions = q.0.0.1;
        matching = q.0.1.2;
        runs = q.1;
      })
      (then-Checked _ s
        (raise_if (any (λ r. not (r.restart_run_id == run)) rs)
          (conflict "replacement batch mixes restart runs"))
        (then-Checked _ s (validate_requested_run h run old (some decision))
          (then-Checked _ s
            (raise_if (any (λ r. not (r.decision_digest == decision)) rs)
              (conflict "replacement batch mixes decisions"))
            (then-Checked _ s
              (raise_if (empty decision) (conflict "replacement batch requires a decision digest"))
              (then-Checked _ s (λ t. raise_if (retired run t) retired_run t)
                (require_integrity-Checked s)
                (λ q.
                  reading-Checked (λ t. raise_if (retired run t) retired_run) s
                    (raise_if-Checked _ _ s)))
              (λ q. raise_if-Checked (empty decision) _ s))
            (λ q. raise_if-Checked (any (λ r. not (r.decision_digest == decision)) rs) _ s))
          (λ q. validate_requested_run-Checked h run old decision s))
        (λ q. raise_if-Checked (any (λ r. not (r.restart_run_id == run)) rs) _ s))

-- The run of the segment is the one that the request names.
segment_run-run_of :
    (h : Hashes) (a : Option ActiveRun) (run old decision : String)
    → Matching h a run old decision
    → segment_run h a run old decision ≡ run_of h run old decision
segment_run-run_of h none run old decision m = refl
segment_run-run_of h (some a) run old decision m = λ i. record {
  restart_run_id = (str_eq_iff a.restart_run_id run).0 m.0 i;
  old_topology_generation_digest =
      (str_eq_iff a.old_topology_generation_digest (digest h old)).0 m.1 i;
  decision_digest = (str_eq_iff a.decision_digest decision).0 m.2 i;
}

module _ (h : Hashes) (rs : List ReplacementReleaseRecord) (run old decision : String) (s : Store)
    (g : IsGood h s) (q : IsRequest h rs run old decision s) where
  write_batch-IsGood :
      (t : Table) (changed : Bool)
      → IsSegment (segment_run h s.active_run run old decision) t
      → IsGood h (write_batch h (run_of h run old decision) t changed s).1
  unfolding write_batch
  write_batch-IsGood t changed e =
      after-Checked _ s (IsGood h)
        (if changed || not (is_some s.active_run)
          then commit_state h (some (run_of h run old decision)) t s.seals s.next_seal_sequence
          else pure tt)
        (raise_if-Checked (ltb s.max_records_per_run (length t)) over_capacity s) g
        (λ c. elim (Bool-cases (changed || not (is_some s.active_run))) [
          | inl new ↦ rw new (
              commit_state-IsGood h s (some (run_of h run old decision)) t s.seals
                s.next_seal_sequence g.recoverable (g.durable q.intact).clean
                (subst (λ a. IsWritable h s (some a) t s.seals s.next_seal_sequence)
                  (segment_run-run_of h s.active_run run old decision q.matching)
                  (segment-IsWritable h s (g.durable q.intact) run old decision t q.matching
                    q.unsealed e (ground (arith, c)))))
          | inr old ↦ rw old g
        ])

  commit_merged-IsGood :
      (r : Result (Table × Bool))
      → Merged (segment_run h s.active_run run old decision) r
      → IsGood h (commit_merged h rs (run_of h run old decision) r s).1
  unfolding commit_merged
  commit_merged-IsGood (err e) m = g
  commit_merged-IsGood (ok (t, changed)) m =
      subst (IsGood h)
        (sym (after_give (write_batch h (run_of h run old decision) t changed) (take_all rs t) s))
        (write_batch-IsGood t changed m)

  records-IsRecordOf :
      (xs : List ReplacementReleaseRecord)
      → All (λ r. complete_record r ≡ true) xs
      → any (λ r. not (r.decision_digest == decision)) xs ≡ false
      → any (λ r. not (r.restart_run_id == run)) xs ≡ false
      → All (IsRecordOf (segment_run h s.active_run run old decision)) xs
  records-IsRecordOf [] c d u = tt
  records-IsRecordOf (r ∷ xs) c d u = (
    request-IsRecordOf h s.active_run old r run decision c.0 (ground (arith, u)) (ground (arith, d))
        q.matching,
    records-IsRecordOf xs c.1 (ground (arith, d)) (ground (arith, u)),
  )

-- Persisting a batch of complete records leaves the store in order, or failed closed.
pub persist_records-IsGood :
    (h : Hashes) (rs : List ReplacementReleaseRecord) (run old : String) (given : Option String)
    (s : Store)
    → All (λ r. complete_record r ≡ true) rs
    → IsGood h s
    → IsGood h (persist_records h rs run old given s).1
unfolding persist_records
persist_records-IsGood h rs run old given s c g =
    let decision = requested_decision given rs in
    after-Checked (check_batch h rs run old decision) s (IsGood h)
      (λ t.
        commit_merged h rs (run_of h run old decision)
          (merge rs t.records (leases_from (values t.records) []) false) t)
      (check_batch-Checked h rs run old decision s) g
      (λ q.
        let d = g.durable q.intact in
        commit_merged-IsGood h rs run old decision s g q
          (merge rs s.records (leases_from (values s.records) []) false)
          (merge-Merged (segment_run h s.active_run run old decision) rs s.records
            (leases_from (values s.records) []) false
            (records-IsRecordOf h rs run old decision s g q rs c q.decisions q.runs)
            (durable-IsSegment h s d run old decision q.decided q.matching)
            (leases_from-IsLeases s.records d.named)))
