-- ===== src/Store/Leaving.antt =====
-- What the commits of a seal leave in the file: prism_serve/scheduler/replacement_store.py.
use prism_serve.Base.Dict.{values}
use prism_serve.Store.Reopen.{closed-IsLoadable}
use prism_serve.Store.Requests.{Matching}
use prism_serve.Base.{
  ℕ, zero, suc, ◌+◌, ◌≤◌, ◌<◌, String, ◌≡◌, refl, sym, subst, ◌∙◌, ◌⊎◌, inl, inr, true, false,
  Option, none, some, List, [], ◌∷◌, ◌++◌, arith, ◌==◌, nat_key, text_key, pair_key, triple_key,
  str_eq_refl, str_eq_iff, length, drop, length-append, ok, ◌>>◌, after_give,
}
use prism_serve.Store.Records.{ReplacementRunSeal, ActiveRun, Hashes, empty}
use prism_serve.Store.State.{
  Contents, image, Write, done, not_opened, not_replaced, not_synced, next_write, atomic_write,
  Store, payload_of, envelope_of, commit_by, commit_state, seal_for_run,
}
use prism_serve.Store.Load.{open_store}
use prism_serve.Store.Durable.{Table, committed, IsDurable}
use prism_serve.Store.Seals.{retained, seal_of, close_run}
use prism_serve.Store.Sealing.{Without, kept-IsLoadable, seal_for_run-Without, x-fits}
use prism_serve.Store.Crash.{cleared, recovered, closed_store, open_sealed, open_closed}

-- The new seal is found among those that are kept.
seal_for_run-kept :
    (run : String) (n : ℕ) (ss : List ReplacementRunSeal) (x : ReplacementRunSeal)
    → n ≤ length ss
    → Without run ss
    → (x.restart_run_id == run) ≡ true
    → seal_for_run run (drop n (ss ++ x ∷ [])) ≡ some x
unfolding seal_for_run
seal_for_run-kept run zero [] x b w e = rw e refl
seal_for_run-kept run zero (y ∷ ss) x b w e =
    rw w.0 (seal_for_run-kept run zero ss x (omega arith) w.1 e)
seal_for_run-kept run (suc n) [] x b w e = absurd (omega (arith, b))
seal_for_run-kept run (suc n) (y ∷ ss) x b w e =
    seal_for_run-kept run n ss x (omega (arith, b)) w.1 e

-- What is in the file after some writes: what was there, or one of two images.
record Leaves (s t : Store) (c d : Contents) : Type 0 where
  max_kept : t.max_records_per_run ≡ s.max_records_per_run
  retention_kept : t.seal_retention ≡ s.seal_retention
  file : (t.disk.contents ≡ s.disk.contents) ⊎ ((t.disk.contents ≡ c) ⊎ (t.disk.contents ≡ d))

module _ (h : Hashes) (a : Option ActiveRun) (t : Table) (ss : List ReplacementRunSeal)
    (n : ℕ) where
  abbrev written : Contents
  written = image (envelope_of h (payload_of a t ss n))

  commit_by-Leaves : (w : Write) (s : Store) → Leaves s (commit_by w h a t ss n s).1 written written
  unfolding commit_by atomic_write
  commit_by-Leaves done s = record { max_kept = refl; retention_kept = refl; file = inr (inl refl) }
  commit_by-Leaves not_opened s = record { max_kept = refl; retention_kept = refl; file = inl refl }
  commit_by-Leaves not_replaced s = record {
    max_kept = refl;
    retention_kept = refl;
    file = inl refl;
  }
  commit_by-Leaves not_synced s = record {
    max_kept = refl;
    retention_kept = refl;
    file = inr (inl refl);
  }

module _ (h : Hashes) (a : Option ActiveRun) (t : Table) (ss : List ReplacementRunSeal) (n : ℕ)
    (s : Store) where
  two_commits :
      (w : Write)
      → Leaves s
          ((commit_by w h a t ss n >> commit_state h none [] ss n) s).1
          (written h a t ss n)
          (written h none [] ss n)
  unfolding commit_by atomic_write commit_state
  two_commits done =
      let s' =
        committed h s a t ss n
          (record s.disk { writes = drop 1 s.disk.writes; contents = written h a t ss n }) in
      let l = commit_by-Leaves h none [] ss n (next_write s'.disk.writes) s' in
      record {
        max_kept = l.max_kept;
        retention_kept = l.retention_kept;
        file = elim l.file [
          | inl e ↦ inr (inl e)
          | inr (inl e) ↦ inr (inr e)
          | inr (inr e) ↦ inr (inr e)
        ];
      }
  two_commits not_opened = record { max_kept = refl; retention_kept = refl; file = inl refl }
  two_commits not_replaced = record { max_kept = refl; retention_kept = refl; file = inl refl }
  two_commits not_synced = record { max_kept = refl; retention_kept = refl; file = inr (inl refl) }

recovered-on :
    (h : Hashes) (s t : Store) (c : Contents)
    → t.max_records_per_run ≡ s.max_records_per_run
    → t.seal_retention ≡ s.seal_retention
    → t.disk.contents ≡ c
    → recovered h t ≡ open_store h s.max_records_per_run s.seal_retention (cleared c)
unfolding recovered
recovered-on h s t c m r e = λ i. open_store h (m i) (r i) (cleared (e i))

-- The state that a seal `x` of the segment leaves, once the directory is cleared.
unfoldable pub closed_by : Hashes → ReplacementRunSeal → Store → Store
closed_by h x s =
    closed_store h s.max_records_per_run s.seal_retention (retained s.seal_retention s.seals x)
      (s.next_seal_sequence + 1)

-- The restart finds the store as it was before, or closed by the seal.
abbrev pub BeforeOrClosed : Hashes → ReplacementRunSeal → Store → Store → Type 0
BeforeOrClosed h x s t = (recovered h t ≡ recovered h s) ⊎ (recovered h t ≡ closed_by h x s)

module _ (h : Hashes) (run old new decision : String) (s : Store) (a : ActiveRun)
    (d : IsDurable h s) (active : s.active_run ≡ some a) (named : empty run ≡ false)
    (fresh : empty new ≡ false) (none_yet : seal_for_run run s.seals ≡ none)
    (match : Matching h (some a) run old decision) (retains : 0 < s.seal_retention) where
  abbrev last : ReplacementRunSeal
  last = seal_of h run old new decision s

  last_kept : seal_for_run a.restart_run_id (retained s.seal_retention s.seals last) ≡ some last
  unfolding retained seal_of
  last_kept =
      subst (λ u. seal_for_run u (retained s.seal_retention s.seals last) ≡ some last)
        (sym ((str_eq_iff a.restart_run_id run).0 match.0))
        (seal_for_run-kept run _ s.seals last
          (omega (arith, retains, length-append s.seals (last ∷ []), d.loadable.kept))
          (seal_for_run-Without run s.seals none_yet) (str_eq_refl run))

  settle :
      (t : Store)
      → Leaves s t
          (written h
            (some a)
            s.records
            (retained s.seal_retention s.seals last)
            (s.next_seal_sequence + 1))
          (written h none [] (retained s.seal_retention s.seals last) (s.next_seal_sequence + 1))
      → BeforeOrClosed h last s t
  unfolding closed_by
  settle t l =
      let m = s.max_records_per_run in
      let r = s.seal_retention in
      let ss = retained r s.seals last in
      let n = s.next_seal_sequence + 1 in
      let good = kept-IsLoadable h run old new decision s a d active named fresh none_yet match in
      elim l.file [
        | inl e ↦ inl (
            recovered-on h s t s.disk.contents l.max_kept l.retention_kept e
            ∙ sym (recovered-on h s s s.disk.contents refl refl refl))
        | inr (inl e) ↦ inr (
            recovered-on h s t _ l.max_kept l.retention_kept e
            ∙ open_sealed h m r ss n a s.records last good last_kept
                (x-fits h run old new decision s a d active named fresh none_yet match))
        | inr (inr e) ↦ inr (
            recovered-on h s t _ l.max_kept l.retention_kept e
            ∙ open_closed h m r ss n (closed-IsLoadable m r (some a) (values s.records) ss n good))
      ]

  pub close_run-settles : BeforeOrClosed h last s (close_run h last s).1
  unfolding close_run seal_of commit_state
  close_run-settles =
      let ss = retained s.seal_retention s.seals last in
      let n = s.next_seal_sequence + 1 in
      settle _ (
        subst (λ u. Leaves s u (written h (some a) s.records ss n) (written h none [] ss n))
          (sym (
            after_give (commit_state h s.active_run s.records ss n >> commit_state h none [] ss n)
              (ok last) s))
          (subst
            (λ o.
              Leaves s ((commit_state h o s.records ss n >> commit_state h none [] ss n) s).1
                (written h (some a) s.records ss n) (written h none [] ss n))
            (sym active) (two_commits h (some a) s.records ss n s (next_write s.disk.writes))))
