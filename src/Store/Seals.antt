-- ===== src/Store/Seals.antt =====
-- Sealing a run: prism_serve/scheduler/replacement_store.py.
use prism_serve.Base.{
  ℕ, ◌+◌, ◌-◌, String, Bool, false, not, ◌&&◌, ◌||◌, Option, none, some, List, [], ◌∷◌, ◌++◌,
  is_some, ◌==◌, nat_key, text_key, pair_key, triple_key, length, drop, ok, Action, pure, raise_if,
  ◌>>◌, raise,
}
use prism_serve.Base.Dict.{values}
use prism_serve.Store.Records.{ReplacementRunSeal, Hashes, digest, record_root, ActiveRun}
use prism_serve.Store.State.{
  Store, conflict, unknown_run, require_integrity, commit_state, seal_for_run,
  validate_requested_run,
}

-- The checks of a retained seal against the arguments of a replay, in one test.
unfoldable pub matches : Hashes → ReplacementRunSeal → String → String → String → Bool
matches h x old new decision =
    (x.old_topology_generation_digest == digest h old)
    && (x.new_topology_generation == new)
    && (x.decision_digest == decision)

-- `exact_completed_run`
unfoldable pub exact_completed_run :
    Hashes → String → String → String → String → Action Store (Option ReplacementRunSeal)
exact_completed_run h run old new decision = require_integrity >> λ s.
    elim (seal_for_run run s.seals) [
      | none ↦ (ok none, s)
      | some x ↦
          (raise_if (not (x.old_topology_generation_digest == digest h old))
                (conflict "sealed replacement run reused with different old generation")
              >> raise_if (not (x.new_topology_generation == new))
                  (conflict "sealed replacement run reused with different new generation")
              >> raise_if (not (x.decision_digest == decision))
                  (conflict "sealed replacement run reused with different decision evidence")
              >> pure (some x))
            s
    ]

abbrev pub last_seal : List ReplacementRunSeal → Option ReplacementRunSeal
last_seal [] = none
last_seal (x ∷ []) = some x
last_seal (x ∷ y ∷ zs) = last_seal (y ∷ zs)

-- `validate_cold_recovery_base`
unfoldable pub validate_cold_recovery_base : String → Action Store (Unit {0})
validate_cold_recovery_base old =
    require_integrity
    >> (λ s.
        raise_if (is_some s.active_run || not (length s.records == 0))
          (conflict "cold replacement recovery requires a closed local segment") s)
    >> λ s.
        raise_if
          (elim (last_seal s.seals) [
            | none ↦ false
            | some x ↦ not (x.new_topology_generation == old)
          ])
          (conflict "cold replacement old generation does not follow retained seal") s

-- The seal that closes the records of a store.
unfoldable pub seal_of : Hashes → String → String → String → String → Store → ReplacementRunSeal
seal_of h run old new decision s = record {
  seal_sequence = s.next_seal_sequence;
  restart_run_id = run;
  old_topology_generation_digest = digest h old;
  new_topology_generation = new;
  decision_digest = decision;
  record_root_digest = record_root h (values s.records);
  record_count = length s.records;
}

-- `[*seals, seal][-retention:]`
unfoldable pub retained : ℕ → List ReplacementRunSeal → ReplacementRunSeal → List ReplacementRunSeal
retained n xs x = drop (length (xs ++ x ∷ []) - n) (xs ++ x ∷ [])

-- The two commits of `seal_run`.
unfoldable pub close_run : Hashes → ReplacementRunSeal → Action Store ReplacementRunSeal
close_run h x s =
    let seals = retained s.seal_retention s.seals x in
    (commit_state h s.active_run s.records seals (x.seal_sequence + 1)
        >> commit_state h none [] seals (x.seal_sequence + 1)
        >> pure x)
      s

-- What `seal_run` does with the active run.
unfoldable pub seal_active :
    Hashes → String → String → String → String → Option ActiveRun → Action Store ReplacementRunSeal
seal_active h run old new decision none = raise (unknown_run "no active replacement segment")
seal_active h run old new decision (some a) = λ s. close_run h (seal_of h run old new decision s) s

-- What `seal_run` does with the seal of the run, or where there is none.
unfoldable pub answer_sealed :
    Hashes
    → String
    → String
    → String
    → String
    → Option ReplacementRunSeal
    → Action Store ReplacementRunSeal
answer_sealed h run old new decision none = validate_requested_run h run old (some decision) >> λ s.
    seal_active h run old new decision s.active_run s
answer_sealed h run old new decision (some x) =
    raise_if (not (matches h x old new decision))
      (conflict "sealed replacement run reused with different evidence")
    >> pure x

-- `seal_run`
unfoldable pub seal_run :
    Hashes → String → String → String → String → Action Store ReplacementRunSeal
seal_run h run old new decision =
    require_integrity >> λ s. answer_sealed h run old new decision (seal_for_run run s.seals) s
