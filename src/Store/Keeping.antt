-- ===== src/Store/Keeping.antt =====
-- Persisting one decision keeps the store in order: prism_serve/scheduler/replacement_store.py.
use prism_serve.Base.{
  ◌≤◌, String, ◌≡◌, sym, subst, true, false, Option, none, some, List, [], ◌∷◌, arith, leb, is_some,
  get_or, ◌==◌, nat_key, text_key, pair_key, triple_key, triple_beq_iff, str_eq_refl, str_eq_iff,
  length, All, length-map, raise_if, raise_if-Checked, then-Checked, after-Checked, after_give, ok,
  bind_err, bind_ok,
}
use prism_serve.Base.Dict.{values, lookup, insert}
use prism_serve.Store.Records.{
  ReplacementReleaseRecord, key_of, lease_of, ReplacementRunSeal, ActiveRun, Hashes, empty,
  RecordKey,
}
use prism_serve.Store.State.{Store, conflict, over_capacity, commit_state, seal_for_run}
use prism_serve.Store.Load.{complete_record}
use prism_serve.Store.Loadable.{OneRun}
use prism_serve.Store.Durable.{Table, IsDurable, IsGood, IsWritable, commit_state-IsGood}
use prism_serve.Store.Decisions.{
  retired, lookup_record, other_decides, run_of, newly, commit_new, persist_found, persist_record,
}
use prism_serve.Store.Requests.{Matching}
use prism_serve.Store.Lookups.{refused, found, missing, lookup_record-cases}
use prism_serve.Store.Tables.{IsSegment, IsRecordOf, insert-IsSegment, length-insert_new}

-- The run that a segment of the store is in after a request.
abbrev pub segment_run : Hashes → Option ActiveRun → String → String → String → ActiveRun
segment_run h a run old decision = get_or a (run_of h run old decision)

segment-OneRun :
    (h : Hashes) (a : Option ActiveRun) (run old decision : String)
    (rs : List ReplacementReleaseRecord)
    → empty decision ≡ false
    → Matching h a run old decision
    → OneRun a rs
    → OneRun (some (segment_run h a run old decision)) rs
segment-OneRun h none run old decision [] e m o = (e, tt)
segment-OneRun h none run old decision (r ∷ rs) e m o = absurd (omega (arith, o))
segment-OneRun h (some a) run old decision rs e m o = o

segment-Unsealed :
    (h : Hashes) (a : Option ActiveRun) (run old decision : String) (ss : List ReplacementRunSeal)
    → Matching h a run old decision
    → is_some (seal_for_run run ss) ≡ false
    → seal_for_run (segment_run h a run old decision).restart_run_id ss ≡ none
segment-Unsealed h none run old decision ss m f = ground (arith, f)
segment-Unsealed h (some a) run old decision ss m f =
    ground (arith, f, str_eq_iff a.restart_run_id run, m.0)

module _ (h : Hashes) (s : Store) (d : IsDurable h s) where
  -- The records of the store are those of the run that matches the request.
  pub durable-IsSegment :
      (run old decision : String)
      → empty decision ≡ false
      → Matching h s.active_run run old decision
      → IsSegment (segment_run h s.active_run run old decision) s.records
  durable-IsSegment run old decision e m = record {
    complete = d.loadable.complete;
    apart = d.loadable.apart;
    named = d.named;
    one_run =
        segment-OneRun h s.active_run run old decision (values s.records) e m d.loadable.one_run;
  }

  -- A segment of the run of the request may be written.
  pub segment-IsWritable :
      (run old decision : String) (t : Table)
      → Matching h s.active_run run old decision
      → retired run s ≡ false
      → IsSegment (segment_run h s.active_run run old decision) t
      → length t ≤ s.max_records_per_run
      → IsWritable h s
          (some (segment_run h s.active_run run old decision))
          t
          s.seals
          s.next_seal_sequence
  segment-IsWritable run old decision t m f g b = record {
    loadable = record {
      complete = g.complete;
      apart = g.apart;
      within = omega (arith, b, length-map (λ (e : RecordKey × ReplacementReleaseRecord). e.1) t);
      one_run = g.one_run;
      sealed = d.loadable.sealed;
      kept = d.loadable.kept;
      rising = d.loadable.rising;
      below = d.loadable.below;
      runs_apart = d.loadable.runs_apart;
      positive = d.loadable.positive;
    };
    named = g.named;
    unsealed = segment-Unsealed h s.active_run run old decision s.seals m f;
  }

-- The record of a request belongs to the run of the segment.
pub request-IsRecordOf :
    (h : Hashes) (a : Option ActiveRun) (old : String) (r : ReplacementReleaseRecord)
    (run decision : String)
    → complete_record r ≡ true
    → (r.restart_run_id == run) ≡ true
    → (r.decision_digest == decision) ≡ true
    → Matching h a run old decision
    → IsRecordOf (segment_run h a run old decision) r
request-IsRecordOf h none old r run decision c e f m = record {
  complete = c;
  run = e;
  decision = f;
}
request-IsRecordOf h (some a) old r run decision c e f m = record {
  complete = c;
  run = ground (
    arith,
    e,
    m.0,
    str_eq_iff r.restart_run_id run,
    str_eq_iff a.restart_run_id run,
    str_eq_iff r.restart_run_id a.restart_run_id,
  );
  decision = ground (
    arith,
    f,
    m.2,
    str_eq_iff r.decision_digest decision,
    str_eq_iff a.decision_digest decision,
    str_eq_iff r.decision_digest a.decision_digest,
  );
}

complete_decided :
    (r : ReplacementReleaseRecord) → complete_record r ≡ true → empty r.decision_digest ≡ false
unfolding complete_record
complete_decided r c = ground (arith, c)

other_decides-none :
    (r : ReplacementReleaseRecord) (t : Table)
    → All (λ e. e.0 ≡ key_of e.1) t
    → lookup (key_of r) t ≡ none
    → other_decides r (values t) ≡ false
    → All (λ o. (lease_of o == lease_of r) ≡ false) (values t)
unfolding other_decides lookup
other_decides-none r [] n f o = tt
other_decides-none r ((k, x) ∷ t) n f o = (
  ground (arith, n.0, f, o, triple_beq_iff (key_of r) k, triple_beq_iff (key_of x) (key_of r)),
  other_decides-none r t n.1 (ground (arith, f)) (ground (arith, o)),
)

module _ (h : Hashes) (r : ReplacementReleaseRecord) (old : String) (s : Store) (g : IsGood h s)
    (complete : complete_record r ≡ true) where
  commit_new-IsGood :
      IsDurable h s
      → lookup (key_of r) s.records ≡ none
      → retired r.restart_run_id s ≡ false
      → Matching h s.active_run r.restart_run_id old r.decision_digest
      → IsGood h (commit_new h r old s).1
  unfolding commit_new
  commit_new-IsGood d f n m =
      after-Checked _ s (IsGood h)
        (commit_state h (some (segment_run h s.active_run r.restart_run_id old r.decision_digest))
          (insert (key_of r) r s.records) s.seals s.next_seal_sequence)
        (then-Checked _ s
          (raise_if (other_decides r (values s.records))
            (conflict "replacement lease already has a different decision key"))
          (raise_if-Checked (leb s.max_records_per_run (length s.records)) over_capacity s)
          (λ f. raise_if-Checked (other_decides r (values s.records)) _ s))
        g
        (λ c. commit_state-IsGood h s _ _ s.seals s.next_seal_sequence g.recoverable d.clean (
          segment-IsWritable h s d r.restart_run_id old r.decision_digest
            (insert (key_of r) r s.records) m n
            (insert-IsSegment _ r s.records
              (durable-IsSegment h s d r.restart_run_id old r.decision_digest
                (complete_decided r complete) m)
              (request-IsRecordOf h s.active_run old r r.restart_run_id r.decision_digest complete
                (str_eq_refl r.restart_run_id) (str_eq_refl r.decision_digest) m)
              f (other_decides-none r s.records d.named f c.1))
            (ground (arith, c.0, length-insert_new r s.records f))))

  -- Persisting a complete record leaves the store in order, or failed closed.
  pub persist_record-IsGood : IsGood h (persist_record h r old s).1
  unfolding persist_record persist_found
  persist_record-IsGood = elim (lookup_record-cases h r old s) [
    | refused e p ↦
        subst (λ q. IsGood h q.1)
          (sym (bind_err (lookup_record h r old) (persist_found h r old) s e p)) g
    | found i p q ↦
        subst (λ q. IsGood h q.1)
          (sym (bind_ok (lookup_record h r old) (persist_found h r old) s (some r) p)) g
    | missing p q ↦
        subst (λ q. IsGood h q.1)
          (sym (bind_ok (lookup_record h r old) (persist_found h r old) s none p))
          (subst (IsGood h) (sym (after_give (commit_new h r old) (ok (newly r)) s))
            (commit_new-IsGood (g.durable q.intact) q.free q.unsealed q.matching))
  ]
