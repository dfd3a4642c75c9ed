-- ===== src/Store/Atomic.antt =====
-- Sealing is atomic: prism_serve/scheduler/replacement_store.py.
use prism_serve.Base.{
  ℕ, ◌<◌, String, ◌≡◌, refl, ◌⊎◌, inl, false, not, Option, none, some, List, nat_key, text_key,
  pair_key, triple_key, All, pure, raise_if, raise_if-Checked, after-Checked,
}
use prism_serve.Store.Records.{ReplacementRunSeal, ActiveRun, Hashes, empty}
use prism_serve.Store.State.{
  Store, Write, conflict, require_integrity, seal_for_run, validate_requested_run,
}
use prism_serve.Store.Durable.{IsDurable}
use prism_serve.Store.Requests.{Matching, require_integrity-Checked, validate_requested_run-Checked}
use prism_serve.Store.Seals.{matches, seal_of, seal_active, answer_sealed, seal_run}
use prism_serve.Store.History.{Call, IsComplete, after, started, after-IsDurable}
use prism_serve.Store.Crash.{recovered}
use prism_serve.Store.Leaving.{closed_by, BeforeOrClosed, close_run-settles}

module _ (h : Hashes) (run old new decision : String) (s : Store) (d : IsDurable h s)
    (fresh : empty new ≡ false) (retains : 0 < s.seal_retention) where
  abbrev Settles : Store → Type 0
  Settles = BeforeOrClosed h (seal_of h run old new decision s) s

  seal_active-Settles :
      (o : Option ActiveRun)
      → s.active_run ≡ o
      → empty run ≡ false
      → seal_for_run run s.seals ≡ none
      → Matching h o run old decision
      → Settles (seal_active h run old new decision o s).1
  unfolding seal_active
  seal_active-Settles none a n u m = inl refl
  seal_active-Settles (some r) a n u m =
      close_run-settles h run old new decision s r d a n fresh u m retains

  answer_sealed-Settles :
      (o : Option ReplacementRunSeal)
      → seal_for_run run s.seals ≡ o
      → Settles (answer_sealed h run old new decision o s).1
  unfolding answer_sealed
  answer_sealed-Settles none u =
      after-Checked (validate_requested_run h run old (some decision)) s Settles
        (λ t. seal_active h run old new decision t.active_run t)
        (validate_requested_run-Checked h run old decision s) (inl refl)
        (λ q. seal_active-Settles s.active_run refl q.0 u q.2)
  answer_sealed-Settles (some y) u =
      after-Checked (raise_if (not (matches h y old new decision)) _) s Settles (pure y)
        (raise_if-Checked (not (matches h y old new decision))
          (conflict "sealed replacement run reused with different evidence") s)
        (inl refl) (λ q. inl refl)

  seal_run-Settles : Settles (seal_run h run old new decision s).1
  unfolding seal_run
  seal_run-Settles =
      after-Checked require_integrity s Settles
        (λ t. answer_sealed h run old new decision (seal_for_run run t.seals) t)
        (require_integrity-Checked s) (inl refl)
        (λ i. answer_sealed-Settles (seal_for_run run s.seals) refl)

-- In a state that a row of calls on a new store leaves, and that has not failed closed: whichever of
-- the writes of a seal fail, and however, the restart on the cleared directory finds what it would
-- have found before the call, or the segment closed by the new seal. (The records of the row have
-- their fields, the seals name a generation, and at least one seal is retained.)
pub seal_run_atomic :
    (h : Hashes) (max_records retention : ℕ) (ws : List Write) (cs : List Call) (s : Store)
    (run old new decision : String)
    → All IsComplete cs
    → after h cs (started h max_records retention ws) ≡ s
    → s.fatal_error ≡ none
    → 0 < s.seal_retention
    → empty new ≡ false
    → let t = (seal_run h run old new decision s).1 in
      (recovered h t ≡ recovered h s)
      ⊎ (recovered h t ≡ closed_by h (seal_of h run old new decision s) s)
seal_run_atomic h m r ws cs s run old new decision p e f retains fresh =
    seal_run-Settles h run old new decision s (after-IsDurable h m r ws cs s p e f) fresh retains
