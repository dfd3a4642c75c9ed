-- ===== src/Store/Requests.antt =====
-- What the checks of a request establish: prism_serve/scheduler/replacement_store.py.
use prism_serve.Base.{
  String, ◌≡◌, refl, ap, inl, inr, true, false, not, ◌||◌, Option, none, some, arith, Option-cases,
  is_some, ◌==◌, nat_key, text_key, pair_key, triple_key, raise_if, Checked, raise_if-Checked,
  then-Checked, weaken-Checked, passed, raised, reading-Checked,
}
use prism_serve.Store.Records.{ActiveRun, Hashes, digest, empty}
use prism_serve.Store.State.{
  Store, conflict, store_unavailable, require_integrity, validate_against, validate_requested_run,
}

-- The run of the segment is the run that is asked for.
abbrev pub Matching : Hashes → Option ActiveRun → String → String → String → Type 0
Matching h none run old decision = Unit
Matching h (some a) run old decision =
    ((a.restart_run_id == run) ≡ true)
    × ((a.old_topology_generation_digest == digest h old) ≡ true)
    × ((a.decision_digest == decision) ≡ true)

pub require_integrity-Checked : (s : Store) → Checked require_integrity s (s.fatal_error ≡ none)
unfolding require_integrity
require_integrity-Checked s = elim (Option-cases s.fatal_error) [
  | inl e ↦ passed (ap (λ o. raise_if (is_some o) store_unavailable s) e) e
  | inr (x, e) ↦ raised store_unavailable (ap (λ o. raise_if (is_some o) store_unavailable s) e)
]

validate_against-Checked :
    (h : Hashes) (a : Option ActiveRun) (run old decision : String) (s : Store)
    → Checked (validate_against h a run old (some decision)) s (Matching h a run old decision)
unfolding validate_against
validate_against-Checked h none run old decision s = passed refl tt
validate_against-Checked h (some a) run old decision s =
    weaken-Checked _ s (λ f. (ground (arith, f.0.0), ground (arith, f.0.1), ground (arith, f.1)))
      (then-Checked _ s
        (raise_if (not (a.decision_digest == decision))
          (conflict "replacement run reused with different decision evidence"))
        (then-Checked _ s
          (raise_if (not (a.old_topology_generation_digest == digest h old))
            (conflict "replacement run reused with different old generation"))
          (raise_if-Checked (not (a.restart_run_id == run)) _ s)
          (λ f. raise_if-Checked (not (a.old_topology_generation_digest == digest h old)) _ s))
        (λ f. raise_if-Checked (not (a.decision_digest == decision)) _ s))

pub validate_requested_run-Checked :
    (h : Hashes) (run old decision : String) (s : Store)
    → Checked
        (validate_requested_run h run old (some decision))
        s
        ((empty run ≡ false) × (empty old ≡ false) × Matching h s.active_run run old decision)
unfolding validate_requested_run
validate_requested_run-Checked h run old decision s =
    weaken-Checked _ s (λ f. (ground (arith, f.0), ground (arith, f.0), f.1))
      (then-Checked _ s (λ t. validate_against h t.active_run run old (some decision) t)
        (raise_if-Checked (empty run || empty old) _ s)
        (λ f.
          reading-Checked (λ t. validate_against h t.active_run run old (some decision)) s
            (validate_against-Checked h s.active_run run old decision s)))
