-- ===== src/Store/Recall.antt =====
-- A restart finds what the store has in memory: prism_serve/scheduler/replacement_store.py.
use prism_serve.Base.{
  ◌≡◌, refl, sym, ap, ◌∙◌, inl, inr, Option, none, some, List, [], ◌∷◌, map, arith, if◌then◌else◌,
  Bool-cases, ◌==◌, nat_key, text_key, pair_key, triple_key, triple_beq_iff, All, Pairwise, ok,
  pass,
}
use prism_serve.Base.Dict.{values, lookup}
use prism_serve.Base.Order.{insort, sorted, All-sorted}
use prism_serve.Store.Records.{
  ReplacementReleaseRecord, RecordKey, key_of, ActiveRun, Hashes, record_before,
}
use prism_serve.Store.State.{Store, payload_of}
use prism_serve.Store.Load.{
  adopt, load_file, load, finish_segment, finish_sealed_gc_after_restart, blank, fail_closed,
  open_store,
}
use prism_serve.Store.Loadable.{Apart, keyed}
use prism_serve.Store.Durable.{Table, Unsealed, Holds, fresh, held, IsDurable}
use prism_serve.Store.Restart.{in_order, reread, load-image, load-clean}

lookup-insort :
    (k : RecordKey) (r : ReplacementReleaseRecord) (rs : List ReplacementReleaseRecord)
    → All (Apart r) rs
    → lookup k (map keyed (insort record_before r rs)) ≡ lookup k (map keyed (r ∷ rs))
unfolding lookup insort
lookup-insort k r [] a = refl
lookup-insort k r (y ∷ ys) a = elim (Bool-cases (record_before y r)) [
  | inl less ↦ rw less (
      ground (
        arith,
        lookup-insort k r ys a.1,
        a.0.0,
        triple_beq_iff k (key_of r),
        triple_beq_iff k (key_of y),
        triple_beq_iff (key_of r) (key_of y),
      ))
  | inr more ↦ rw more refl
]

lookup-in_order :
    (k : RecordKey) (rs : List ReplacementReleaseRecord)
    → Pairwise Apart rs
    → lookup k (map keyed (in_order rs)) ≡ lookup k (map keyed rs)
unfolding lookup sorted
lookup-in_order k [] a = refl
lookup-in_order k (r ∷ rs) a =
    lookup-insort k r (in_order rs) (All-sorted record_before _ rs a.0)
    ∙ ap (λ o. if k == key_of r then some r else o) (lookup-in_order k rs a.1)

named-table : (t : Table) → All (λ e. e.0 ≡ key_of e.1) t → map keyed (values t) ≡ t
named-table [] h = refl
named-table ((k, r) ∷ t) h = λ i. (sym h.0 i, r) ∷ named-table t h.1 i

-- The file has the records of the table, each under its key.
pub lookup-reread :
    (k : RecordKey) (t : Table)
    → All (λ e. e.0 ≡ key_of e.1) t
    → Pairwise Apart (values t)
    → lookup k (reread t) ≡ lookup k t
lookup-reread k t n a = lookup-in_order k (values t) a ∙ ap (lookup k) (named-table t n)

-- The store with its records in the order of the file.
unfoldable pub filed : Store → Store
filed s = record s { records = reread s.records }

finish_segment-none :
    (h : Hashes) (a : Option ActiveRun) (s : Store)
    → Unsealed a s.seals
    → finish_segment h a s ≡ (ok tt, s)
unfolding finish_segment
finish_segment-none h none s u = refl
finish_segment-none h (some a) s u = rw (u, finish_segment) refl

module _ (h : Hashes) (s : Store) (d : IsDurable h s) (f : s.fatal_error ≡ none) where
  read_back :
      Holds h s → load h (blank s.max_records_per_run s.seal_retention s.disk) ≡ (ok tt, filed s)
  unfolding filed load_file adopt payload_of sorted
  read_back (fresh c a r x n) =
      load-clean h s.max_records_per_run s.seal_retention s.disk d.clean
      ∙ ap (λ c. load_file h c (blank s.max_records_per_run s.seal_retention s.disk)) c
      ∙ λ i. (
        ok tt,
        record s {
          fatal_error = sym f i;
          active_run = sym a i;
          records = ap reread (sym r) i;
          seals = sym x i;
          next_seal_sequence = sym n i;
        },
      )
  read_back (held c) =
      load-image h s.max_records_per_run s.seal_retention s.disk d.clean s.active_run s.records
        s.seals s.next_seal_sequence c d.loadable
      ∙ λ i. (ok tt, record s { fatal_error = sym f i; records = reread s.records })

  -- Opened on the file of a store in order, the store has what that one has in memory.
  pub open_store-filed : open_store h s.max_records_per_run s.seal_retention s.disk ≡ filed s
  unfolding open_store finish_sealed_gc_after_restart filed
  open_store-filed = ap fail_closed (
      pass (load h) (finish_sealed_gc_after_restart h)
        (blank s.max_records_per_run s.seal_retention s.disk) (read_back d.holds)
        (finish_segment-none h s.active_run (filed s) d.unsealed))
