-- ===== src/Store/Durable.antt =====
-- What the file of a store holds: prism_serve/scheduler/replacement_store.py.
use prism_serve.Base.{
  ℕ, ◌≡◌, refl, true, false, Option, none, some, List, [], nat_key, text_key, pair_key, triple_key,
  All, Action, ◌>>◌,
}
use prism_serve.Base.Dict.{Dict, values}
use prism_serve.Store.Records.{
  ReplacementReleaseRecord, RecordKey, key_of, ReplacementRunSeal, ActiveRun, Hashes,
}
use prism_serve.Store.State.{
  Contents, absent, image, Write, done, not_opened, not_replaced, not_synced, next_write, Store,
  payload_of, envelope_of, atomic_write, commit_by, commit_state, seal_for_run, Disk,
}
use prism_serve.Store.Load.{fits}
use prism_serve.Store.Loadable.{IsLoadable}

abbrev pub Table : Type 0
Table = Dict RecordKey ReplacementReleaseRecord

-- A segment whose run has a seal is the one that was sealed.
abbrev pub Closable :
    Hashes → Option ActiveRun → List ReplacementReleaseRecord → List ReplacementRunSeal → Type 0
Closable h none rs ss = Unit
Closable h (some a) rs ss =
    (x : ReplacementRunSeal) → seal_for_run a.restart_run_id ss ≡ some x → fits h x a rs ≡ true

-- The run of the segment has no seal.
abbrev pub Unsealed : Option ActiveRun → List ReplacementRunSeal → Type 0
Unsealed none ss = Unit
Unsealed (some a) ss = seal_for_run a.restart_run_id ss ≡ none

-- The file is absent, or it is one that a restart reads.
pub data Recoverable (h : Hashes) (max_records retention : ℕ) : Contents → Type 0 where
  nothing : Recoverable h max_records retention absent
  state :
      (a : Option ActiveRun) (t : Table) (ss : List ReplacementRunSeal) (n : ℕ)
      → IsLoadable max_records retention a (values t) ss n
      → Closable h a (values t) ss
      → Recoverable h max_records retention (image (envelope_of h (payload_of a t ss n)))

-- The file holds what the store has in memory.
pub data Holds (h : Hashes) (s : Store) : Type 0 where
  fresh :
      s.disk.contents ≡ absent
      → s.active_run ≡ none
      → s.records ≡ []
      → s.seals ≡ []
      → s.next_seal_sequence ≡ 1
      → Holds h s
  held :
      s.disk.contents
        ≡ image (envelope_of h (payload_of s.active_run s.records s.seals s.next_seal_sequence))
      → Holds h s

pub record IsDurable (h : Hashes) (s : Store) : Type 0 where
  pub loadable :
      IsLoadable s.max_records_per_run s.seal_retention s.active_run
        (values s.records)
        s.seals
        s.next_seal_sequence
  pub named : All (λ e. e.0 ≡ key_of e.1) s.records
  pub unsealed : Unsealed s.active_run s.seals
  pub clean : s.disk.orphan ≡ false
  pub holds : Holds h s

-- What every call keeps.
pub record IsGood (h : Hashes) (s : Store) : Type 0 where
  pub recoverable : Recoverable h s.max_records_per_run s.seal_retention s.disk.contents
  pub durable : s.fatal_error ≡ none → IsDurable h s

-- What a commit is asked to write.
pub record IsWritable (h : Hashes) (s : Store) (a : Option ActiveRun) (t : Table)
    (ss : List ReplacementRunSeal) (n : ℕ) : Type 0 where
  pub loadable : IsLoadable s.max_records_per_run s.seal_retention a (values t) ss n
  pub named : All (λ e. e.0 ≡ key_of e.1) t
  pub unsealed : Unsealed a ss

Unsealed-Closable :
    (h : Hashes) (a : Option ActiveRun) (rs : List ReplacementReleaseRecord)
    (ss : List ReplacementRunSeal)
    → Unsealed a ss
    → Closable h a rs ss
Unsealed-Closable h none rs ss u = tt
Unsealed-Closable h (some a) rs ss u = λ x e. cc

module _ (h : Hashes) (s : Store) (a : Option ActiveRun) (t : Table) (ss : List ReplacementRunSeal)
    (n : ℕ) where
  commit_by-IsGood :
      (w : Write)
      → Recoverable h s.max_records_per_run s.seal_retention s.disk.contents
      → s.disk.orphan ≡ false
      → IsWritable h s a t ss n
      → IsGood h (commit_by w h a t ss n s).1
  unfolding commit_by atomic_write
  commit_by-IsGood done r o w = record {
    recoverable = state a t ss n w.loadable (Unsealed-Closable h a (values t) ss w.unsealed);
    durable = λ e. record {
      loadable = w.loadable;
      named = w.named;
      unsealed = w.unsealed;
      clean = o;
      holds = held refl;
    };
  }
  commit_by-IsGood not_opened r o w = record { recoverable = r; durable = λ e. cc }
  commit_by-IsGood not_replaced r o w = record { recoverable = r; durable = λ e. cc }
  commit_by-IsGood not_synced r o w = record {
    recoverable = state a t ss n w.loadable (Unsealed-Closable h a (values t) ss w.unsealed);
    durable = λ e. cc;
  }

  -- A commit that returns has written what it says, and one that raises fails closed.
  pub commit_state-IsGood :
      Recoverable h s.max_records_per_run s.seal_retention s.disk.contents
      → s.disk.orphan ≡ false
      → IsWritable h s a t ss n
      → IsGood h (commit_state h a t ss n s).1
  unfolding commit_state
  commit_state-IsGood = commit_by-IsGood (next_write s.disk.writes)

  -- What is in memory once a commit has written.
  abbrev pub committed : Disk → Store
  committed d = record s {
    active_run = a;
    records = t;
    seals = ss;
    next_seal_sequence = n;
    disk = d;
  }

  commit_by-then :
      (w : Write) (k : Action Store (Unit {0}))
      → Recoverable h s.max_records_per_run s.seal_retention s.disk.contents
      → IsLoadable s.max_records_per_run s.seal_retention a (values t) ss n
      → Closable h a (values t) ss
      → ((d : Disk)
          → d.orphan ≡ s.disk.orphan
          → d.contents ≡ image (envelope_of h (payload_of a t ss n))
          → IsGood h (k (committed d)).1)
      → IsGood h ((commit_by w h a t ss n >> k) s).1
  unfolding commit_by atomic_write
  commit_by-then done k r l c f = f _ refl refl
  commit_by-then not_opened k r l c f = record { recoverable = r; durable = λ e. cc }
  commit_by-then not_replaced k r l c f = record { recoverable = r; durable = λ e. cc }
  commit_by-then not_synced k r l c f = record {
    recoverable = state a t ss n l c;
    durable = λ e. cc;
  }

  -- A commit that is followed by another step, which sees what was written.
  pub commit_state-then :
      (k : Action Store (Unit {0}))
      → Recoverable h s.max_records_per_run s.seal_retention s.disk.contents
      → IsLoadable s.max_records_per_run s.seal_retention a (values t) ss n
      → Closable h a (values t) ss
      → ((d : Disk)
          → d.orphan ≡ s.disk.orphan
          → d.contents ≡ image (envelope_of h (payload_of a t ss n))
          → IsGood h (k (committed d)).1)
      → IsGood h ((commit_state h a t ss n >> k) s).1
  unfolding commit_state
  commit_state-then = commit_by-then (next_write s.disk.writes)
