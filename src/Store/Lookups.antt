-- ===== src/Store/Lookups.antt =====
-- What a lookup of a decision answers: prism_serve/scheduler/replacement_store.py.
use prism_serve.Base.{
  String, ◌≡◌, refl, ap, ◌∙◌, inl, inr, true, false, Option, none, some, Bool-cases, Option-cases,
  is_some, nat_key, text_key, pair_key, triple_key, Error, ok, err, pure, raise_if, bind_err, pass,
  Checked, raised, passed, raise_if-Checked, then-Checked, reading-Checked, weaken-Checked,
}
use prism_serve.Base.Dict.{lookup}
use prism_serve.Store.Records.{
  ReplacementReleaseRecord, key_of, Hashes, same_record, same_record_iff,
}
use prism_serve.Store.State.{
  Store, store_unavailable, conflict, retired_run, require_integrity, validate_requested_run,
}
use prism_serve.Store.Decisions.{retired, check_new, answer_found, lookup_record}
use prism_serve.Store.Requests.{Matching, require_integrity-Checked, validate_requested_run-Checked}

-- The key of the record is free, and its run may take it.
pub record IsMissing (h : Hashes) (r : ReplacementReleaseRecord) (old : String) (s : Store)
    : Type 0 where
  pub intact : s.fatal_error ≡ none
  pub free : lookup (key_of r) s.records ≡ none
  pub unsealed : retired r.restart_run_id s ≡ false
  pub matching : Matching h s.active_run r.restart_run_id old r.decision_digest

pub data LookupCase (h : Hashes) (r : ReplacementReleaseRecord) (old : String) (s : Store)
    : Type 0 where
  refused : (e : Error) → lookup_record h r old s ≡ (err e, s) → LookupCase h r old s
  found :
      s.fatal_error ≡ none
      → lookup_record h r old s ≡ (ok (some r), s)
      → lookup (key_of r) s.records ≡ some r
      → LookupCase h r old s
  missing : lookup_record h r old s ≡ (ok none, s) → IsMissing h r old s → LookupCase h r old s

check_new-Checked :
    (h : Hashes) (r : ReplacementReleaseRecord) (old : String) (s : Store)
    → s.fatal_error ≡ none
    → lookup (key_of r) s.records ≡ none
    → Checked (check_new h r old) s (IsMissing h r old s)
unfolding check_new
check_new-Checked h r old s i f =
    weaken-Checked _ s (λ q. record { intact = i; free = f; unsealed = q.0; matching = q.1.2 })
      (then-Checked (λ t. raise_if (retired r.restart_run_id t) retired_run t) s
        (validate_requested_run h r.restart_run_id old (some r.decision_digest))
        (reading-Checked (λ t. raise_if (retired r.restart_run_id t) retired_run) s
          (raise_if-Checked _ _ s))
        (λ n. validate_requested_run-Checked h r.restart_run_id old r.decision_digest s))

module _ (h : Hashes) (r : ReplacementReleaseRecord) (old : String) (s : Store) where
  -- Past the first check, the answer is that for what is under the key.
  looked :
      (o : Option ReplacementReleaseRecord)
      → require_integrity s ≡ (ok tt, s)
      → lookup (key_of r) s.records ≡ o
      → lookup_record h r old s ≡ answer_found h r old o s
  unfolding lookup_record
  looked o p f =
      pass require_integrity (λ t. answer_found h r old (lookup (key_of r) t.records) t) s p
        (ap (λ o. answer_found h r old o s) f)

  found-same :
      (x : ReplacementReleaseRecord)
      → same_record x r ≡ true
      → answer_found h r old (some x) s ≡ (ok (some r), s)
  unfolding answer_found
  found-same x e = rw e (ap (λ y. (ok (some y), s)) ((same_record_iff x r).0 e))

  found-other :
      (x : ReplacementReleaseRecord)
      → same_record x r ≡ false
      → answer_found h r old (some x) s
        ≡ (err (conflict "replacement key reused with different record/digest"), s)
  unfolding answer_found
  found-other x e = rw e refl

  lookup_free :
      require_integrity s ≡ (ok tt, s)
      → s.fatal_error ≡ none
      → lookup (key_of r) s.records ≡ none
      → LookupCase h r old s
  unfolding answer_found
  lookup_free p i f = elim (check_new-Checked h r old s i f) [
    | raised e q ↦ refused e (looked none p f ∙ bind_err (check_new h r old) (λ _. pure none) s e q)
    | passed q m ↦ missing (looked none p f ∙ pass (check_new h r old) (pure none) s q refl) m
  ]

  -- A lookup changes nothing: it refuses, finds the record itself, or finds its key free.
  pub lookup_record-cases : LookupCase h r old s
  unfolding lookup_record
  lookup_record-cases = elim (require_integrity-Checked s) [
    | raised e p ↦ refused e (
        bind_err require_integrity (λ _. λ t. answer_found h r old (lookup (key_of r) t.records) t)
          s e p)
    | passed p i ↦ elim (Option-cases (lookup (key_of r) s.records)) [
      | inl f ↦ lookup_free p i f
      | inr (x, f) ↦ elim (Bool-cases (same_record x r)) [
        | inl same ↦
            found i (looked (some x) p f ∙ found-same x same)
              (f ∙ ap some ((same_record_iff x r).0 same))
        | inr other ↦ refused _ (looked (some x) p f ∙ found-other x other)
      ]
    ]
  ]

  -- A record that is there is found.
  pub lookup_there :
      s.fatal_error ≡ none
      → lookup (key_of r) s.records ≡ some r
      → lookup_record h r old s ≡ (ok (some r), s)
  unfolding require_integrity
  lookup_there f e =
      looked (some r) (ap (λ o. raise_if (is_some o) store_unavailable s) f) e
      ∙ found-same r ((same_record_iff r r).1 refl)
