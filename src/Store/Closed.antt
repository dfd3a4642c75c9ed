-- ===== src/Store/Closed.antt =====
-- A decision that is not persisted: prism_serve/scheduler/replacement_store.py.
use prism_serve.Base.{
  String, ◌≡◌, refl, sym, ap, subst, ◌∙◌, ◌⊎◌, inl, inr, false, Option, none, some, List, [], ◌∷◌,
  leb, get_or, nat_key, text_key, pair_key, triple_key, length, All, Error, Result, ok, err, pure,
  raise, raise_if, ◌>>◌, bind_ok, bind_err, pass, raised, passed, raise_if-Checked, then-Checked,
}
use prism_serve.Base.Dict.{values, insert}
use prism_serve.Store.Records.{ReplacementReleaseRecord, ActiveRun, key_of, Hashes}
use prism_serve.Store.State.{
  Store, Write, done, not_opened, not_replaced, not_synced, next_write, atomic_write, commit_by,
  commit_state, conflict, over_capacity, require_integrity, ready, transition_closed,
}
use prism_serve.Store.Decisions.{
  lookup_record, other_decides, run_of, newly, commit_new, persist_found, persist_record,
  check_batch, persist_records,
}
use prism_serve.Store.Seals.{seal_run}
use prism_serve.Store.Lookups.{refused, found, missing, lookup_record-cases}
use prism_serve.Store.History.{Call, persist, persist_batch, seal, restart, call, after}

-- The calls other than a restart.
abbrev pub IsRequest : Call → Type 0
IsRequest (persist r old) = Unit
IsRequest (persist_batch rs run old given) = Unit
IsRequest (seal run old new decision) = Unit
IsRequest (restart cleared ws) = ⊥

-- The run, the records, the seals and the counter are the same.
abbrev pub SameMemory : Store → Store → Type 0
SameMemory s t =
    (t.active_run ≡ s.active_run)
    × (t.records ≡ s.records)
    × (t.seals ≡ s.seals)
    × (t.next_seal_sequence ≡ s.next_seal_sequence)

-- Nothing has changed, or the store has failed closed, with its memory as it was.
abbrev Unchanged : {A : Type 0} → Store → Result A × Store → Type 0
Unchanged s (ok a, t) = Unit
Unchanged s (err x, t) = SameMemory s t × ((t ≡ s) ⊎ ((e : Error) × (t.fatal_error ≡ some e)))

closed_call :
    (h : Hashes) (c : Call) (s : Store) (e : Error)
    → IsRequest c
    → s.fatal_error ≡ some e
    → call h c s ≡ s
unfolding call lookup_record persist_record persist_records check_batch seal_run require_integrity
closed_call h (persist r old) s e q f = rw f refl
closed_call h (persist_batch rs run old given) s e q f = rw f refl
closed_call h (seal run old new decision) s e q f = rw f refl
closed_call h (restart cleared ws) s e q f = absurd q

closed_row :
    (h : Hashes) (cs : List Call) (s : Store) (e : Error)
    → All IsRequest cs
    → s.fatal_error ≡ some e
    → after h cs s ≡ s
unfolding after
closed_row h [] s e q f = refl
closed_row h (c ∷ cs) s e q f =
    ap (after h cs) (closed_call h c s e q.0 f) ∙ closed_row h cs s e q.1 f

commit_by-Unchanged :
    (h : Hashes) (r : ReplacementReleaseRecord) (w : Write) (s : Store) (o : Option ActiveRun)
    → Unchanged s (
        (commit_by w h o (insert (key_of r) r s.records) s.seals s.next_seal_sequence
            >> pure (newly r))
          s)
unfolding commit_by atomic_write
commit_by-Unchanged h r done s o = tt
commit_by-Unchanged h r not_opened s o = ((refl, refl, refl, refl), inr (_, refl))
commit_by-Unchanged h r not_replaced s o = ((refl, refl, refl, refl), inr (_, refl))
commit_by-Unchanged h r not_synced s o = ((refl, refl, refl, refl), inr (_, refl))

commit_new-Unchanged :
    (h : Hashes) (r : ReplacementReleaseRecord) (old : String) (s : Store)
    → Unchanged s ((commit_new h r old >> pure (newly r)) s)
unfolding commit_new commit_state
commit_new-Unchanged h r old s =
    let m =
      raise_if (leb s.max_records_per_run (length s.records)) over_capacity
      >> raise_if (other_decides r (values s.records))
          (conflict "replacement lease already has a different decision key") in
    let o = some (get_or s.active_run (run_of h r.restart_run_id old r.decision_digest)) in
    let k = commit_state h o (insert (key_of r) r s.records) s.seals s.next_seal_sequence in
    elim (then-Checked _ s
      (raise_if (other_decides r (values s.records))
        (conflict "replacement lease already has a different decision key"))
      (raise_if-Checked (leb s.max_records_per_run (length s.records)) over_capacity s)
      (λ q. raise_if-Checked (other_decides r (values s.records)) _ s)) [
        | raised e p ↦
            subst (Unchanged s)
              (sym (bind_err (m >> k) (λ _. pure (newly r)) s e (bind_err m (λ _. k) s e p)))
              ((refl, refl, refl, refl), inl refl)
        | passed p q ↦
            subst (Unchanged s)
              (sym (
                ap (λ q. elim q.0 [ ok a ↦ pure (newly r) q.1 | err e ↦ raise e q.1 ])
                  (pass m k s p refl)))
              (commit_by-Unchanged h r (next_write s.disk.writes) s o)
      ]

persist_record-Unchanged :
    (h : Hashes) (r : ReplacementReleaseRecord) (old : String) (s : Store)
    → Unchanged s (persist_record h r old s)
unfolding persist_record persist_found
persist_record-Unchanged h r old s = elim (lookup_record-cases h r old s) [
  | refused e p ↦
      subst (Unchanged s) (sym (bind_err (lookup_record h r old) (persist_found h r old) s e p))
        ((refl, refl, refl, refl), inl refl)
  | found i p q ↦
      subst (Unchanged s)
        (sym (bind_ok (lookup_record h r old) (persist_found h r old) s (some r) p)) tt
  | missing p q ↦
      subst (Unchanged s) (sym (bind_ok (lookup_record h r old) (persist_found h r old) s none p))
        (commit_new-Unchanged h r old s)
]

-- A call of `persist_record` that raises leaves the run, the records, the seals and the counter in
-- memory as they were. Either nothing else has changed, or the store has failed closed: it is not ready
-- and closes no transition, and whatever row of decisions, batches and seals is asked of it without a
-- restart, nothing in memory or in the directory changes any more.
pub fails_closed :
    (h : Hashes) (r : ReplacementReleaseRecord) (old : String) (s t : Store) (x : Error)
    (cs : List Call)
    → persist_record h r old s ≡ (err x, t)
    → All IsRequest cs
    → SameMemory s t
      × ((t ≡ s) ⊎ ((ready t ≡ false) × (transition_closed t ≡ false) × (after h cs t ≡ t)))
unfolding ready transition_closed
fails_closed h r old s t x cs p q =
    let u = subst (Unchanged s) p (persist_record-Unchanged h r old s) in
    (
      u.0,
      elim u.1 [
        | inl same ↦ inl same
        | inr (e, f) ↦ inr (rw f refl, rw f refl, closed_row h cs t e q f)
      ],
    )
