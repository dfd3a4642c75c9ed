-- ===== src/Store/Sealing.antt =====
-- Sealing a run keeps the store in order, whichever of its two commits fails:
-- prism_serve/scheduler/replacement_store.py.
use prism_serve.Base.{
  ℕ, zero, suc, ◌+◌, ◌-◌, String, ◌≡◌, refl, sym, subst, ◌∙◌, true, false, not, Option, none, some,
  List, [], ◌∷◌, ◌++◌, arith, ◌==◌, nat_key, text_key, pair_key, triple_key, str_eq_refl,
  str_eq_iff, length, drop, All, All-append, All-drop, Pairwise-drop, All-map, Pairwise-last,
  length-drop, length-map, ok, pure, raise_if, ◌>>◌, raise_if-Checked, after-Checked, after_give,
}
use prism_serve.Base.Dict.{values}
use prism_serve.Store.Records.{
  ReplacementRunSeal, ActiveRun, Hashes, digest, record_root, prefixed_full, empty,
}
use prism_serve.Store.State.{
  Store, conflict, require_integrity, commit_state, seal_for_run, validate_requested_run,
}
use prism_serve.Store.Load.{complete_seal, fits}
use prism_serve.Store.Loadable.{OneRun, IsLoadable}
use prism_serve.Store.Durable.{
  Closable, Recoverable, state, IsDurable, IsGood, commit_state-IsGood, commit_state-then,
  committed,
}
use prism_serve.Store.Seals.{
  matches, seal_of, retained, close_run, seal_active, answer_sealed, seal_run,
}
use prism_serve.Store.Requests.{Matching, require_integrity-Checked, validate_requested_run-Checked}
use prism_serve.Store.Reopen.{closed-IsWritable}

-- No seal of the run.
abbrev pub Without : String → List ReplacementRunSeal → Type 0
Without run = All (λ y. (y.restart_run_id == run) ≡ false)

pub seal_for_run-Without :
    (run : String) (ss : List ReplacementRunSeal) → seal_for_run run ss ≡ none → Without run ss
unfolding seal_for_run
seal_for_run-Without run [] h = tt
seal_for_run-Without run (x ∷ xs) h =
    (ground (arith, h), seal_for_run-Without run xs (ground (arith, h)))

-- Of the seals that are kept, only the last can be of the run.
only_last :
    (run : String) (n : ℕ) (ss : List ReplacementRunSeal) (x y : ReplacementRunSeal)
    → Without run ss
    → seal_for_run run (drop n (ss ++ x ∷ [])) ≡ some y
    → x ≡ y
unfolding seal_for_run
only_last run zero [] x y w h = ground (arith, h)
only_last run zero (z ∷ ss) x y w h = only_last run zero ss x y w.1 (ground (arith, h, w.0))
only_last run (suc zero) [] x y w h = ground (arith, h)
only_last run (suc (suc n)) [] x y w h = ground (arith, h)
only_last run (suc n) (z ∷ ss) x y w h = only_last run n ss x y w.1 h

module _ (h : Hashes) (run old new decision : String) (s : Store) (a : ActiveRun)
    (d : IsDurable h s) (active : s.active_run ≡ some a) (named : empty run ≡ false)
    (fresh : empty new ≡ false) (none_yet : seal_for_run run s.seals ≡ none)
    (match : Matching h (some a) run old decision) where
  abbrev pub x : ReplacementRunSeal
  x = seal_of h run old new decision s

  abbrev pub kept : List ReplacementRunSeal
  kept = retained s.seal_retention s.seals x

  decided : empty decision ≡ false
  decided =
      let one = subst (λ o. OneRun o (values s.records)) active d.loadable.one_run in
      ground (arith, one.0, match.2, str_eq_iff a.decision_digest decision)

  x_complete : complete_seal x ≡ true
  unfolding complete_seal seal_of digest record_root
  x_complete =
      rw (named, fresh, decided, prefixed_full (h.text_hash old), prefixed_full _)
        (ground (arith, d.loadable.positive))

  pub kept-IsLoadable :
      IsLoadable s.max_records_per_run s.seal_retention
        (some a)
        (values s.records)
        kept
        (s.next_seal_sequence + 1)
  unfolding retained seal_of
  kept-IsLoadable = record {
    complete = d.loadable.complete;
    apart = d.loadable.apart;
    within = d.loadable.within;
    one_run = subst (λ o. OneRun o (values s.records)) active d.loadable.one_run;
    sealed =
        All-drop _ _ (s.seals ++ x ∷ [])
          (All-append _ s.seals (x ∷ []) d.loadable.sealed (x_complete, tt));
    kept =
        omega
          (arith, length-drop (length (s.seals ++ x ∷ []) - s.seal_retention) (s.seals ++ x ∷ []));
    rising =
        Pairwise-drop _ _ (s.seals ++ x ∷ [])
          (Pairwise-last _ s.seals x d.loadable.rising d.loadable.below);
    below = All-drop _ _ (s.seals ++ x ∷ []) (
        All-append _ s.seals (x ∷ [])
          (All-map _ _ (λ y e. omega (arith, e)) s.seals d.loadable.below) (omega arith, tt));
    runs_apart = Pairwise-drop _ _ (s.seals ++ x ∷ []) (
        Pairwise-last _ s.seals x d.loadable.runs_apart
          (seal_for_run-Without run s.seals none_yet));
    positive = omega arith;
  }

  pub x-fits : fits h x a (values s.records) ≡ true
  unfolding fits seal_of
  x-fits = ground (
    arith,
    match.1,
    match.2,
    length-map (λ e. e.1) s.records,
    str_eq_refl (record_root h (values s.records)),
    str_eq_iff a.old_topology_generation_digest (digest h old),
    str_eq_iff (digest h old) a.old_topology_generation_digest,
    str_eq_iff a.decision_digest decision,
    str_eq_iff decision a.decision_digest,
  )

  pub kept-Closable : Closable h (some a) (values s.records) kept
  unfolding retained
  kept-Closable y e =
      subst (λ z. fits h z a (values s.records) ≡ true)
        (only_last run _ s.seals x y (seal_for_run-Without run s.seals none_yet) (
          subst (λ u. seal_for_run u kept ≡ some y) ((str_eq_iff a.restart_run_id run).0 match.0)
            e))
        x-fits

  pub close_run-IsGood : IsGood h s → IsGood h (close_run h x s).1
  unfolding close_run seal_of
  close_run-IsGood g =
      subst (IsGood h)
        (sym (
          after_give
            (commit_state h s.active_run s.records kept (s.next_seal_sequence + 1)
              >> commit_state h none [] kept (s.next_seal_sequence + 1))
            (ok x) s))
        (subst
          (λ o.
            IsGood h
              ((commit_state h o s.records kept (s.next_seal_sequence + 1)
                  >> commit_state h none [] kept (s.next_seal_sequence + 1))
                s).1)
          (sym active)
          (commit_state-then h s (some a) s.records kept (s.next_seal_sequence + 1)
            (commit_state h none [] kept (s.next_seal_sequence + 1)) g.recoverable kept-IsLoadable
            kept-Closable
            (λ e o c.
              commit_state-IsGood h
                (committed h s (some a) s.records kept (s.next_seal_sequence + 1) e) none [] kept
                (s.next_seal_sequence + 1)
                (subst (Recoverable h s.max_records_per_run s.seal_retention) (sym c) (
                  state (some a) s.records kept (s.next_seal_sequence + 1) kept-IsLoadable
                    kept-Closable))
                (o ∙ d.clean)
                (closed-IsWritable h _ (some a) (values s.records) kept (s.next_seal_sequence + 1)
                  kept-IsLoadable))))

pub seal_active-IsGood :
    (h : Hashes) (run old new decision : String) (o : Option ActiveRun) (s : Store)
    → empty new ≡ false
    → IsGood h s
    → IsDurable h s
    → s.active_run ≡ o
    → empty run ≡ false
    → seal_for_run run s.seals ≡ none
    → Matching h o run old decision
    → IsGood h (seal_active h run old new decision o s).1
unfolding seal_active
seal_active-IsGood h run old new decision none s f g d a n u m = g
seal_active-IsGood h run old new decision (some r) s f g d a n u m =
    close_run-IsGood h run old new decision s r d a n f u m g

answer_sealed-IsGood :
    (h : Hashes) (run old new decision : String) (o : Option ReplacementRunSeal) (s : Store)
    → empty new ≡ false
    → IsGood h s
    → IsDurable h s
    → seal_for_run run s.seals ≡ o
    → IsGood h (answer_sealed h run old new decision o s).1
unfolding answer_sealed
answer_sealed-IsGood h run old new decision none s f g d u =
    after-Checked (validate_requested_run h run old (some decision)) s (IsGood h)
      (λ t. seal_active h run old new decision t.active_run t)
      (validate_requested_run-Checked h run old decision s) g
      (λ q. seal_active-IsGood h run old new decision s.active_run s f g d refl q.0 u q.2)
answer_sealed-IsGood h run old new decision (some y) s f g d u =
    after-Checked (raise_if (not (matches h y old new decision)) _) s (IsGood h) (pure y)
      (raise_if-Checked (not (matches h y old new decision))
        (conflict "sealed replacement run reused with different evidence") s)
      g (λ q. g)

-- Sealing a run under a new generation leaves the store in order, or failed closed.
pub seal_run-IsGood :
    (h : Hashes) (run old new decision : String) (s : Store)
    → empty new ≡ false
    → IsGood h s
    → IsGood h (seal_run h run old new decision s).1
unfolding seal_run
seal_run-IsGood h run old new decision s f g =
    after-Checked require_integrity s (IsGood h)
      (λ t. answer_sealed h run old new decision (seal_for_run run t.seals) t)
      (require_integrity-Checked s) g
      (λ i.
        answer_sealed-IsGood h run old new decision (seal_for_run run s.seals) s f g (g.durable i)
          refl)
