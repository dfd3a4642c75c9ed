-- ===== src/Store/Crash.antt =====
-- A seal whose commits fail, and the restart after it: prism_serve/scheduler/replacement_store.py.
use prism_serve.Base.{
  ℕ, ◌≡◌, refl, ap, ◌∙◌, true, false, none, some, List, [], nat_key, text_key, pair_key, triple_key,
  pass,
}
use prism_serve.Base.Dict.{values}
use prism_serve.Base.Order.{sorted}
use prism_serve.Store.Records.{ReplacementRunSeal, ActiveRun, Hashes}
use prism_serve.Store.State.{
  Contents, image, atomic_write, Disk, Store, payload_of, envelope_of, commit_by, commit_state,
  seal_for_run,
}
use prism_serve.Store.Load.{
  adopt, load, fits, finish_segment, finish_sealed_gc_after_restart, blank, fail_closed, open_store,
}
use prism_serve.Store.Loadable.{IsLoadable}
use prism_serve.Store.Durable.{Table}
use prism_serve.Store.Restart.{reread-values, loaded, load-image}
use prism_serve.Store.Reopen.{fits-in_order}

-- The directory once the temporary files are cleared, where the writes go well.
abbrev pub cleared : Contents → Disk
cleared c = record { orphan = false; contents = c; writes = [] }

-- The restart of a store on its directory, cleared.
unfoldable pub recovered : Hashes → Store → Store
recovered h s = open_store h s.max_records_per_run s.seal_retention (cleared s.disk.contents)

abbrev pub closed_image : Hashes → List ReplacementRunSeal → ℕ → Contents
closed_image h ss n = image (envelope_of h (payload_of none [] ss n))

-- A store with these seals and no segment, over a file that says so.
unfoldable pub closed_store : Hashes → ℕ → ℕ → List ReplacementRunSeal → ℕ → Store
closed_store h m r ss n = record (blank m r (cleared (closed_image h ss n))) {
  seals = ss;
  next_seal_sequence = n;
}

finish_segment-sealed :
    (h : Hashes) (a : ActiveRun) (x : ReplacementRunSeal) (s : Store)
    → seal_for_run a.restart_run_id s.seals ≡ some x
    → fits h x a (values s.records) ≡ true
    → finish_segment h (some a) s ≡ commit_state h none [] s.seals s.next_seal_sequence s
unfolding finish_segment
finish_segment-sealed h a x s there fit = rw (there, finish_segment) (rw fit refl)

module _ (h : Hashes) (m r : ℕ) (ss : List ReplacementRunSeal) (n : ℕ) where
  pub open_closed :
      IsLoadable m r none [] ss n
      → open_store h m r (cleared (closed_image h ss n)) ≡ closed_store h m r ss n
  unfolding open_store finish_sealed_gc_after_restart finish_segment adopt payload_of closed_store
      sorted
  open_closed l = ap fail_closed (
      pass (load h) (finish_sealed_gc_after_restart h) (blank m r (cleared (closed_image h ss n)))
        (load-image h m r (cleared (closed_image h ss n)) refl none [] ss n refl l) refl)

  pub open_sealed :
      (a : ActiveRun) (t : Table) (x : ReplacementRunSeal)
      → IsLoadable m r (some a) (values t) ss n
      → seal_for_run a.restart_run_id ss ≡ some x
      → fits h x a (values t) ≡ true
      → open_store h m r (cleared (image (envelope_of h (payload_of (some a) t ss n))))
        ≡ closed_store h m r ss n
  unfolding open_store finish_sealed_gc_after_restart adopt payload_of closed_store sorted
      commit_state commit_by atomic_write
  open_sealed a t x l there fit =
      let d = cleared (image (envelope_of h (payload_of (some a) t ss n))) in
      ap fail_closed (
        pass (load h) (finish_sealed_gc_after_restart h) (blank m r d)
          (load-image h m r d refl (some a) t ss n refl l)
          (finish_segment-sealed h a x (loaded h m r d refl (some a) t ss n) there
            (ap (fits h x a) (reread-values t) ∙ fits-in_order h x a (values t) ∙ fit)))
