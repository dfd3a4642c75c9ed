-- ===== src/Store/Again.antt =====
-- Persisting a decision again: prism_serve/scheduler/replacement_store.py.
use prism_serve.Base.{
  String, ◌≡◌, refl, sym, ap, subst, Bool, false, Option, none, some, leb, get_or, nat_key,
  text_key, pair_key, triple_key, length, Result, ok, err, pure, raise, raise_if, ◌>>◌, bind_ok,
  bind_err, pass, raised, passed, raise_if-Checked, then-Checked,
}
use prism_serve.Base.Dict.{lookup, values, insert, insert-lookup}
use prism_serve.Store.Records.{ReplacementReleaseRecord, ActiveRun, key_of, Hashes}
use prism_serve.Store.State.{
  Store, Write, done, not_opened, not_replaced, not_synced, next_write, atomic_write, commit_by,
  commit_state, conflict, over_capacity,
}
use prism_serve.Store.Decisions.{
  lookup_record, other_decides, run_of, newly, commit_new, persist_found, persist_record,
}
use prism_serve.Store.Lookups.{refused, found, missing, lookup_record-cases, lookup_there}

-- A record that is there is answered, and nothing changes.
persist_there :
    (h : Hashes) (r : ReplacementReleaseRecord) (old : String) (s : Store)
    → s.fatal_error ≡ none
    → lookup (key_of r) s.records ≡ some r
    → persist_record h r old s ≡ (ok (r, false), s)
unfolding persist_record persist_found
persist_there h r old s f e =
    bind_ok (lookup_record h r old) (persist_found h r old) s (some r) (lookup_there h r old s f e)

-- What `persist_record` answers and leaves: its record, there and in a sound store.
abbrev pub Persisted :
    ReplacementReleaseRecord → Result (ReplacementReleaseRecord × Bool) × Store → Type 0
Persisted r (ok (x, b), t) =
    (x ≡ r) × (t.fatal_error ≡ none) × (lookup (key_of r) t.records ≡ some r)
Persisted r (err e, t) = Unit

commit_by-Persisted :
    (h : Hashes) (r : ReplacementReleaseRecord) (w : Write) (s : Store) (o : Option ActiveRun)
    → s.fatal_error ≡ none
    → Persisted r (
        (commit_by w h o (insert (key_of r) r s.records) s.seals s.next_seal_sequence
            >> pure (newly r))
          s)
unfolding commit_by atomic_write
commit_by-Persisted h r done s o f = (refl, f, insert-lookup (key_of r) r s.records)
commit_by-Persisted h r not_opened s o f = tt
commit_by-Persisted h r not_replaced s o f = tt
commit_by-Persisted h r not_synced s o f = tt

commit_new-Persisted :
    (h : Hashes) (r : ReplacementReleaseRecord) (old : String) (s : Store)
    → s.fatal_error ≡ none
    → Persisted r ((commit_new h r old >> pure (newly r)) s)
unfolding commit_new commit_state
commit_new-Persisted h r old s f =
    let m =
      raise_if (leb s.max_records_per_run (length s.records)) over_capacity
      >> raise_if (other_decides r (values s.records))
          (conflict "replacement lease already has a different decision key") in
    let o = some (get_or s.active_run (run_of h r.restart_run_id old r.decision_digest)) in
    let k = commit_state h o (insert (key_of r) r s.records) s.seals s.next_seal_sequence in
    elim (then-Checked _ s
      (raise_if (other_decides r (values s.records))
        (conflict "replacement lease already has a different decision key"))
      (raise_if-Checked (leb s.max_records_per_run (length s.records)) over_capacity s)
      (λ q. raise_if-Checked (other_decides r (values s.records)) _ s)) [
        | raised e p ↦
            subst (Persisted r)
              (sym (bind_err (m >> k) (λ _. pure (newly r)) s e (bind_err m (λ _. k) s e p))) tt
        | passed p q ↦
            subst (Persisted r)
              (sym (
                ap (λ q. elim q.0 [ ok a ↦ pure (newly r) q.1 | err e ↦ raise e q.1 ])
                  (pass m k s p refl)))
              (commit_by-Persisted h r (next_write s.disk.writes) s o f)
      ]

pub persist_record-Persisted :
    (h : Hashes) (r : ReplacementReleaseRecord) (old : String) (s : Store)
    → Persisted r (persist_record h r old s)
unfolding persist_record persist_found
persist_record-Persisted h r old s = elim (lookup_record-cases h r old s) [
  | refused e p ↦
      subst (Persisted r) (sym (bind_err (lookup_record h r old) (persist_found h r old) s e p)) tt
  | found i p q ↦
      subst (Persisted r)
        (sym (bind_ok (lookup_record h r old) (persist_found h r old) s (some r) p)) (refl, i, q)
  | missing p q ↦
      subst (Persisted r) (sym (bind_ok (lookup_record h r old) (persist_found h r old) s none p))
        (commit_new-Persisted h r old s q.intact)
]

-- A call of `persist_record` that returns has answered the record itself, and in the state that it
-- leaves the record is there under its key; the same call made in that state answers the record as one
-- that was there, and changes nothing.
pub persist_record_again :
    (h : Hashes) (r x : ReplacementReleaseRecord) (old : String) (created : Bool) (s t : Store)
    → persist_record h r old s ≡ (ok (x, created), t)
    → (x ≡ r)
      × (lookup (key_of r) t.records ≡ some r)
      × (persist_record h r old t ≡ (ok (r, false), t))
persist_record_again h r x old created s t e =
    let p = subst (Persisted r) e (persist_record-Persisted h r old s) in
    (p.0, p.2, persist_there h r old t p.1 p.2)
