-- ===== src/Store/Reopen.antt =====
-- Opening the store on a file that it left: prism_serve/scheduler/replacement_store.py.
use prism_serve.Base.{
  ℕ, ◌≡◌, refl, sym, ap, subst, ◌∙◌, inl, inr, true, false, Option, none, some, List, [], arith,
  Bool-cases, Option-cases, nat_key, text_key, pair_key, triple_key, Result, ok, err, raise, pass,
}
use prism_serve.Base.Dict.{values}
use prism_serve.Base.Order.{length-sorted}
use prism_serve.Store.Records.{
  ReplacementReleaseRecord, ReplacementRunSeal, ActiveRun, Hashes, record_before, record_root,
}
use prism_serve.Store.State.{
  Contents, absent, image, Disk, Store, payload_of, envelope_of, commit_state, seal_for_run,
}
use prism_serve.Store.Load.{
  adopt, load_file, load, fits, finish_segment, finish_sealed_gc_after_restart, blank, fail_closed,
  open_store,
}
use prism_serve.Store.Loadable.{IsLoadable}
use prism_serve.Store.Durable.{
  Table, Closable, Recoverable, nothing, state, fresh, IsDurable, IsGood, IsWritable,
  commit_state-IsGood,
}
use prism_serve.Store.Restart.{
  in_order, in_order_again, reread, reread-values, loaded, load-image, load-clean, load-orphan,
  loaded-IsDurable,
}

pub fail_closed-IsGood :
    (h : Hashes) (p : Result (Unit {0}) × Store) → IsGood h p.1 → IsGood h (fail_closed p)
fail_closed-IsGood h (ok u, s) g = g
fail_closed-IsGood h (err e, s) g = record { recoverable = g.recoverable; durable = λ e. cc }

pub fits-in_order :
    (h : Hashes) (x : ReplacementRunSeal) (a : ActiveRun) (rs : List ReplacementReleaseRecord)
    → fits h x a (in_order rs) ≡ fits h x a rs
unfolding fits record_root
fits-in_order h x a rs = rw (length-sorted record_before rs, in_order_again rs) refl

pub closed-IsLoadable :
    (m r : ℕ) (a : Option ActiveRun) (rs : List ReplacementReleaseRecord)
    (ss : List ReplacementRunSeal) (n : ℕ)
    → IsLoadable m r a rs ss n
    → IsLoadable m r none [] ss n
closed-IsLoadable m r a rs ss n l = record {
  complete = tt;
  apart = tt;
  within = omega arith;
  one_run = refl;
  sealed = l.sealed;
  kept = l.kept;
  rising = l.rising;
  below = l.below;
  runs_apart = l.runs_apart;
  positive = l.positive;
}

pub closed-IsWritable :
    (h : Hashes) (s : Store) (a : Option ActiveRun) (rs : List ReplacementReleaseRecord)
    (ss : List ReplacementRunSeal) (n : ℕ)
    → IsLoadable s.max_records_per_run s.seal_retention a rs ss n
    → IsWritable h s none [] ss n
closed-IsWritable h s a rs ss n l = record {
  loadable = closed-IsLoadable s.max_records_per_run s.seal_retention a rs ss n l;
  named = tt;
  unsealed = tt;
}

-- A new store over an empty directory is in order.
blank-IsDurable :
    (h : Hashes) (m r : ℕ) (d : Disk)
    → d.orphan ≡ false
    → d.contents ≡ absent
    → IsDurable h (blank m r d)
blank-IsDurable h m r d o e = record {
  loadable = record {
    complete = tt;
    apart = tt;
    within = omega arith;
    one_run = refl;
    sealed = tt;
    kept = omega arith;
    rising = tt;
    below = tt;
    runs_apart = tt;
    positive = omega arith;
  };
  named = tt;
  unsealed = tt;
  clean = o;
  holds = fresh e refl refl refl refl;
}

module _ (h : Hashes) (m r : ℕ) (d : Disk) (clean : d.orphan ≡ false) (t : Table)
    (ss : List ReplacementRunSeal) (n : ℕ) where
  finish-IsGood :
      (a : Option ActiveRun)
      → d.contents ≡ image (envelope_of h (payload_of a t ss n))
      → IsLoadable m r a (values t) ss n
      → Closable h a (values t) ss
      → IsGood h (fail_closed (finish_sealed_gc_after_restart h (loaded h m r d clean a t ss n)))
  unfolding finish_sealed_gc_after_restart finish_segment adopt payload_of seal_for_run
  finish-IsGood none e l c = record {
    recoverable = subst (Recoverable h m r) (sym e) (state none t ss n l c);
    durable = λ f. loaded-IsDurable h m r d clean none t ss n e l tt;
  }
  finish-IsGood (some a) e l c = elim (Option-cases (seal_for_run a.restart_run_id ss)) [
    | inl new ↦
        rw (new, finish_segment)
          (record {
            recoverable = subst (Recoverable h m r) (sym e) (state (some a) t ss n l c);
            durable = λ f. loaded-IsDurable h m r d clean (some a) t ss n e l new;
          })
    | inr (x, there) ↦
        let fit : fits h x a (values (reread t)) ≡ true =
          ap (fits h x a) (reread-values t) ∙ fits-in_order h x a (values t) ∙ c x there in
        let before = loaded h m r d clean (some a) t ss n in
        rw (there, fit)
          (fail_closed-IsGood h (commit_state h none [] ss n before) (
            commit_state-IsGood h before none [] ss n
              (subst (Recoverable h m r) (sym e) (state (some a) t ss n l c)) clean
              (closed-IsWritable h before (some a) (values t) ss n l)))
  ]

  open_image-IsGood :
      (a : Option ActiveRun)
      → d.contents ≡ image (envelope_of h (payload_of a t ss n))
      → IsLoadable m r a (values t) ss n
      → Closable h a (values t) ss
      → IsGood h (open_store h m r d)
  unfolding open_store
  open_image-IsGood a e l c =
      subst (λ p. IsGood h (fail_closed p))
        (sym (
          pass (load h) (finish_sealed_gc_after_restart h) (blank m r d)
            (load-image h m r d clean a t ss n e l) refl))
        (finish-IsGood a e l c)

open_clean-IsGood :
    (h : Hashes) (m r : ℕ) (d : Disk) (c : Contents)
    → d.orphan ≡ false
    → d.contents ≡ c
    → Recoverable h m r c
    → IsGood h (open_store h m r d)
unfolding open_store load_file finish_sealed_gc_after_restart finish_segment
open_clean-IsGood h m r d absent o e nothing =
    subst (λ p. IsGood h (fail_closed p))
      (sym (
        pass (load h) (finish_sealed_gc_after_restart h) (blank m r d)
          (load-clean h m r d o ∙ ap (λ c. load_file h c (blank m r d)) e) refl))
      (record {
        recoverable = subst (Recoverable h m r) (sym e) nothing;
        durable = λ f. blank-IsDurable h m r d o e;
      })
open_clean-IsGood h m r d _ o e (state a t ss n l c) = open_image-IsGood h m r d o t ss n a e l c

-- A store that is opened on a file that a store has left is in order or fails closed.
pub open_store-IsGood :
    (h : Hashes) (m r : ℕ) (d : Disk) → Recoverable h m r d.contents → IsGood h (open_store h m r d)
unfolding open_store
open_store-IsGood h m r d k = elim (Bool-cases d.orphan) [
  | inl left ↦
      subst
        (λ p. IsGood h (
          fail_closed
            (elim p.0 [ ok u ↦ finish_sealed_gc_after_restart h p.1 | err e ↦ raise e p.1 ])))
        (sym (load-orphan h m r d left)) (record { recoverable = k; durable = λ e. cc })
  | inr clean ↦ open_clean-IsGood h m r d d.contents clean refl k
]
