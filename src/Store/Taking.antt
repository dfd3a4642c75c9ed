-- ===== src/Store/Taking.antt =====
-- The way of a decision through the guards: prism_serve/scheduler/replacement_store.py.
use prism_serve.Base.{
  ◌<◌, String, ◌≡◌, refl, ap, ◌∙◌, true, false, ◌||◌, Option, none, some, arith, leb, is_some,
  get_or, nat_key, text_key, pair_key, triple_key, length, ok, pure, raise_if, ◌>>◌, raise_if_none,
  bind_ok, pass,
}
use prism_serve.Base.Dict.{lookup, values, insert}
use prism_serve.Store.Records.{ReplacementReleaseRecord, ActiveRun, key_of, Hashes, empty}
use prism_serve.Store.State.{
  Store, done, conflict, unknown_run, retired_run, over_capacity, store_unavailable, next_write,
  written_once, atomic_write, payload_of, envelope_of, image, commit_by, commit_state,
  require_integrity, validate_against, validate_requested_run,
}
use prism_serve.Store.Durable.{committed}
use prism_serve.Store.Decisions.{
  retired, check_new, answer_found, lookup_record, other_decides, run_of, newly, commit_new,
  persist_found, persist_record,
}
use prism_serve.Store.Requests.{Matching}

validate_against_passes :
    (h : Hashes) (a : Option ActiveRun) (run old decision : String) (s : Store)
    → Matching h a run old decision
    → validate_against h a run old (some decision) s ≡ (ok tt, s)
unfolding validate_against
validate_against_passes h none run old decision s m = refl
validate_against_passes h (some a) run old decision s m = rw (m.0, m.1, m.2) refl

validate_passes :
    (h : Hashes) (run old decision : String) (s : Store)
    → empty run ≡ false
    → empty old ≡ false
    → Matching h s.active_run run old decision
    → validate_requested_run h run old (some decision) s ≡ (ok tt, s)
unfolding validate_requested_run
validate_passes h run old decision s e o m =
    pass (raise_if (empty run || empty old) (unknown_run "run and old generation are required"))
      (λ t. validate_against h t.active_run run old (some decision) t) s
      (raise_if_none (empty run || empty old) _ s (ground (arith, e, o)))
      (validate_against_passes h s.active_run run old decision s m)

lookup_passes :
    (h : Hashes) (r : ReplacementReleaseRecord) (old : String) (s : Store)
    → s.fatal_error ≡ none
    → lookup (key_of r) s.records ≡ none
    → retired r.restart_run_id s ≡ false
    → empty r.restart_run_id ≡ false
    → empty old ≡ false
    → Matching h s.active_run r.restart_run_id old r.decision_digest
    → lookup_record h r old s ≡ (ok none, s)
unfolding lookup_record require_integrity answer_found check_new
lookup_passes h r old s f k n e o m =
    pass require_integrity (λ t. answer_found h r old (lookup (key_of r) t.records) t) s
      (ap (λ x. raise_if (is_some x) store_unavailable s) f)
      (ap (λ x. answer_found h r old x s) k
        ∙ pass (check_new h r old) (pure none) s
            (pass (λ t. raise_if (retired r.restart_run_id t) retired_run t)
              (validate_requested_run h r.restart_run_id old (some r.decision_digest)) s
              (raise_if_none (retired r.restart_run_id s) retired_run s n)
              (validate_passes h r.restart_run_id old r.decision_digest s e o m))
            refl)

-- The store with the record of the request.
abbrev pub taken_up : Hashes → ReplacementReleaseRecord → String → Store → Store
taken_up h r old s =
    let a = some (get_or s.active_run (run_of h r.restart_run_id old r.decision_digest)) in
    let t = insert (key_of r) r s.records in
    committed h s a t s.seals s.next_seal_sequence (record (written_once s.disk) {
      contents = image (envelope_of h (payload_of a t s.seals s.next_seal_sequence));
    })

commit_new_passes :
    (h : Hashes) (r : ReplacementReleaseRecord) (old : String) (s : Store)
    → length s.records < s.max_records_per_run
    → other_decides r (values s.records) ≡ false
    → next_write s.disk.writes ≡ done
    → commit_new h r old s ≡ (ok tt, taken_up h r old s)
unfolding commit_new commit_state commit_by atomic_write
commit_new_passes h r old s c d w =
    let a = some (get_or s.active_run (run_of h r.restart_run_id old r.decision_digest)) in
    let t = insert (key_of r) r s.records in
    let full = leb s.max_records_per_run (length s.records) in
    pass
      (raise_if full over_capacity
        >> raise_if (other_decides r (values s.records))
            (conflict "replacement lease already has a different decision key"))
      (commit_state h a t s.seals s.next_seal_sequence) s
      (pass (raise_if full over_capacity)
        (raise_if (other_decides r (values s.records))
          (conflict "replacement lease already has a different decision key"))
        s (raise_if_none full over_capacity s (ground (arith, c)))
        (raise_if_none (other_decides r (values s.records)) _ s d))
      (ap (λ v. commit_by v h a t s.seals s.next_seal_sequence s) w)

-- The guards of `persist_record`, passed one by one.
pub persist_passes :
    (h : Hashes) (r : ReplacementReleaseRecord) (old : String) (s : Store)
    → s.fatal_error ≡ none
    → lookup (key_of r) s.records ≡ none
    → retired r.restart_run_id s ≡ false
    → empty r.restart_run_id ≡ false
    → empty old ≡ false
    → Matching h s.active_run r.restart_run_id old r.decision_digest
    → length s.records < s.max_records_per_run
    → other_decides r (values s.records) ≡ false
    → next_write s.disk.writes ≡ done
    → persist_record h r old s ≡ (ok (r, true), taken_up h r old s)
unfolding persist_record persist_found
persist_passes h r old s f k n e o m c d w =
    bind_ok (lookup_record h r old) (persist_found h r old) s none
      (lookup_passes h r old s f k n e o m)
    ∙ pass (commit_new h r old) (pure (newly r)) s (commit_new_passes h r old s c d w) refl
