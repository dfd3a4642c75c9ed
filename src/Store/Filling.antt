-- ===== src/Store/Filling.antt =====
-- A new store takes the decisions of a run: prism_serve/scheduler/replacement_store.py.
use prism_serve.Base.{
  ℕ, ◌+◌, ◌≤◌, String, ◌≡◌, refl, sym, ap, subst, ◌∙◌, true, false, Option, none, some, List, [],
  ◌∷◌, map, arith, is_some, get_or, nat_key, text_key, pair_key, triple_key, str_eq_refl, length,
  drop, All, Pairwise, All-map, ok,
}
use prism_serve.Base.Dict.{lookup, insert-lookup}
use prism_serve.Store.Records.{
  ReplacementReleaseRecord, RecordKey, key_of, ActiveRun, Hashes, empty, digest,
}
use prism_serve.Store.State.{Store, absent, seal_for_run, next_write}
use prism_serve.Store.Tables.{length-insert_new}
use prism_serve.Store.Load.{
  complete_record, load, load_file, finish_sealed_gc_after_restart, finish_segment, open_store,
  blank,
}
use prism_serve.Store.Decisions.{run_of, persist_record}
use prism_serve.Store.Requests.{Matching}
use prism_serve.Store.Loadable.{Apart}
use prism_serve.Store.Recall.{filed}
use prism_serve.Store.Taking.{taken_up, persist_passes}
use prism_serve.Store.History.{Call, persist, call, after, IsComplete, started, after_restart}
use prism_serve.Store.Openings.{IsOpen, All-still-IsOpen, stays_under, All-IsOpen}

-- A decision of the run, with its fields.
abbrev pub IsDecision : String → String → ReplacementReleaseRecord → Type 0
IsDecision run decision r =
    (r.restart_run_id ≡ run) × (r.decision_digest ≡ decision) × (complete_record r ≡ true)

abbrev pub asked : String → List ReplacementReleaseRecord → List Call
asked old rs = map (λ r. persist r old) rs

-- A store over an empty directory, before any call.
abbrev bare : ℕ → ℕ → Store
bare m n = blank m n (record { orphan = false; contents = absent; writes = [] })

started-bare : (h : Hashes) (m n : ℕ) → started h m n [] ≡ bare m n
unfolding started open_store load load_file finish_sealed_gc_after_restart finish_segment
started-bare h m n = refl

module _ (h : Hashes) (run old decision : String) where
  -- A store that may take the decisions that are left.
  record IsReady (s : Store) (rs : List ReplacementReleaseRecord) : Type 0 where
    sound : s.fatal_error ≡ none
    matching : Matching h s.active_run run old decision
    unsealed : s.seals ≡ []
    writable : s.disk.writes ≡ []
    room : length s.records + length rs ≤ s.max_records_per_run
    free : All (IsOpen s.records) rs
    apart : Pairwise Apart rs
    decisions : All (IsDecision run decision) rs

  run-Matching :
      (a : Option ActiveRun)
      → Matching h a run old decision
      → Matching h (some (get_or a (run_of h run old decision))) run old decision
  run-Matching none m = (str_eq_refl run, str_eq_refl (digest h old), str_eq_refl decision)
  run-Matching (some a) m = m

  persist_ready :
      (s : Store) (r : ReplacementReleaseRecord) (rs : List ReplacementReleaseRecord)
      → empty old ≡ false
      → IsReady s (r ∷ rs)
      → persist_record h r old s ≡ (ok (r, true), taken_up h r old s)
  unfolding seal_for_run complete_record
  persist_ready s r rs o v =
      let d = v.decisions.0 in
      persist_passes h r old s v.sound v.free.0.0
        (ap (λ xs. is_some (seal_for_run r.restart_run_id xs)) v.unsealed) (ground (arith, d.2)) o
        (subst (λ x. Matching h s.active_run x old r.decision_digest) (sym d.0)
          (subst (λ x. Matching h s.active_run run old x) (sym d.1) v.matching))
        (omega (arith, v.room)) v.free.0.1 (ap next_write v.writable)

  IsReady-next :
      (s : Store) (r : ReplacementReleaseRecord) (rs : List ReplacementReleaseRecord)
      → IsReady s (r ∷ rs)
      → IsReady (taken_up h r old s) rs
  IsReady-next s r rs v =
      let d = v.decisions.0 in
      record {
        sound = v.sound;
        matching =
            subst
              (λ x.
                Matching h (some (get_or s.active_run (run_of h x old r.decision_digest))) run old
                  decision)
              (sym d.0)
              (subst
                (λ x. Matching h (some (get_or s.active_run (run_of h run old x))) run old decision)
                (sym d.1) (run-Matching s.active_run v.matching));
        unsealed = v.unsealed;
        writable = ap (drop 1) v.writable;
        room = omega (arith, v.room, length-insert_new r s.records v.free.0.0);
        free = All-still-IsOpen s.records r rs v.free.0.0 v.apart.0 v.free.1;
        apart = v.apart.1;
        decisions = v.decisions.1;
      }

  -- All that are left are taken, and what was there stays.
  row_taken :
      (s : Store) (rs : List ReplacementReleaseRecord)
      → empty old ≡ false
      → IsReady s rs
      → ((after h (asked old rs) s).fatal_error ≡ none)
        × ((k : RecordKey) (x : ReplacementReleaseRecord)
            → lookup k s.records ≡ some x
            → lookup k (after h (asked old rs) s).records ≡ some x)
        × All (λ r. lookup (key_of r) (after h (asked old rs) s).records ≡ some r) rs
  unfolding after call
  row_taken s [] o v = (v.sound, λ k x e. e, tt)
  row_taken s (r ∷ rs) o v =
      let t = taken_up h r old s in
      let step = ap (λ p. p.1) (persist_ready s r rs o v) in
      subst
        (λ u.
          ((after h (asked old rs) u).fatal_error ≡ none)
          × ((k : RecordKey) (x : ReplacementReleaseRecord)
              → lookup k s.records ≡ some x
              → lookup k (after h (asked old rs) u).records ≡ some x)
          × All (λ q. lookup (key_of q) (after h (asked old rs) u).records ≡ some q) (r ∷ rs))
        (sym step)
        (let (f, keep, all_there) = row_taken t rs o (IsReady-next s r rs v) in
          (
            f,
            λ k x e. keep k x (stays_under s.records r x k v.free.0.0 e),
            (keep (key_of r) r (insert-lookup (key_of r) r s.records), all_there),
          ))

asked-IsComplete :
    (run old decision : String) (rs : List ReplacementReleaseRecord)
    → All (IsDecision run decision) rs
    → All IsComplete (asked old rs)
unfolding IsComplete
asked-IsComplete run old decision [] d = tt
asked-IsComplete run old decision (r ∷ rs) d = (d.0.2, asked-IsComplete run old decision rs d.1)

All-both :
    {A : Type 0} (P Q : A → Type 0) (f : (x : A) → P x → Q x) (xs : List A)
    → All P xs
    → All (λ x. P x × Q x) xs
All-both P Q f xs a = All-map P (λ x. P x × Q x) (λ x p. (p, f x p)) xs a

-- A new store takes all the decisions of a run that is asked of it, one by one: where they are no more
-- than its cap, have their fields, and differ pairwise in their keys and leases, and all the writes are
-- done, the store is sound in the end, and each of the records is there, in memory and for the process
-- that is started next on the directory.
pub run_taken :
    (h : Hashes) (max_records retention : ℕ) (run old decision : String)
    (rs : List ReplacementReleaseRecord) (s : Store)
    → length rs ≤ max_records
    → empty old ≡ false
    → Pairwise Apart rs
    → All (IsDecision run decision) rs
    → after h (asked old rs) (started h max_records retention []) ≡ s
    → (s.fatal_error ≡ none)
      × All
          (λ r.
            (lookup (key_of r) s.records ≡ some r)
            × (lookup
                  (key_of r)
                  (open_store h s.max_records_per_run s.seal_retention s.disk).records
                ≡ some r))
          rs
unfolding filed
run_taken h m n run old decision rs s l o a d e =
    let v : IsReady h run old decision (bare m n) rs = record {
      sound = refl;
      matching = tt;
      unsealed = refl;
      writable = refl;
      room = omega (arith, l);
      free = All-IsOpen rs;
      apart = a;
      decisions = d;
    } in
    let same = ap (after h (asked old rs)) (sym (started-bare h m n)) ∙ e in
    let (f, keep, there) = row_taken h run old decision (bare m n) rs o v in
    let sound = subst (λ t. t.fatal_error ≡ none) same f in
    let (again, found) =
      after_restart h m n [] (asked old rs) s (asked-IsComplete run old decision rs d) e sound in
    (
      sound,
      All-both (λ r. lookup (key_of r) s.records ≡ some r) _
          (λ r p. ap (λ t. lookup (key_of r) t.records) again ∙ found (key_of r) ∙ p) rs
          (subst (λ t. All (λ r. lookup (key_of r) t.records ≡ some r) rs) same there),
    )
