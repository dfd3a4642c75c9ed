-- ===== src/Store/History.antt =====
-- Rows of calls on a store whose writes may fail, with restarts:
-- prism_serve/scheduler/replacement_store.py.
use prism_serve.Base.{
  ℕ, String, ◌≡◌, Bool, true, false, not, ◌&&◌, Option, none, List, [], ◌∷◌, nat_key, text_key,
  pair_key, triple_key, All, subst,
}
use prism_serve.Base.Dict.{values, lookup}
use prism_serve.Store.Records.{ReplacementReleaseRecord, RecordKey, Hashes, empty}
use prism_serve.Store.State.{Write, absent, Store}
use prism_serve.Store.Load.{complete_record, open_store}
use prism_serve.Store.Decisions.{persist_record, persist_records}
use prism_serve.Store.Seals.{seal_run}
use prism_serve.Store.Loadable.{IsLoadable}
use prism_serve.Store.Durable.{nothing, IsDurable, IsGood}
use prism_serve.Store.Reopen.{open_store-IsGood}
use prism_serve.Store.Recall.{filed, lookup-reread, open_store-filed}
use prism_serve.Store.Keeping.{persist_record-IsGood}
use prism_serve.Store.Batches.{persist_records-IsGood}
use prism_serve.Store.Sealing.{seal_run-IsGood}

-- A call that writes, or a restart, before which the operator may have cleared the temporary files
-- and after which the writes go as is listed.
pub data Call : Type 0 where
  persist : ReplacementReleaseRecord → String → Call
  persist_batch : List ReplacementReleaseRecord → String → String → Option String → Call
  seal : String → String → String → String → Call
  restart : Bool → List Write → Call

-- A restart of the process on the same directory.
unfoldable pub reopen : Hashes → Bool → List Write → Store → Store
reopen h cleared ws s =
    open_store h s.max_records_per_run s.seal_retention
      (record s.disk { orphan = s.disk.orphan && not cleared; writes = ws })

-- The state that a call leaves, whether it returns or raises.
unfoldable pub call : Hashes → Call → Store → Store
call h (persist r old) s = (persist_record h r old s).1
call h (persist_batch rs run old given) s = (persist_records h rs run old given s).1
call h (seal run old new decision) s = (seal_run h run old new decision s).1
call h (restart cleared ws) s = reopen h cleared ws s

unfoldable pub after : Hashes → List Call → Store → Store
after h [] s = s
after h (c ∷ cs) s = after h cs (call h c s)

-- The records have their fields, and a seal names a generation.
unfoldable pub IsComplete : Call → Type 0
IsComplete (persist r old) = complete_record r ≡ true
IsComplete (persist_batch rs run old given) = All (λ r. complete_record r ≡ true) rs
IsComplete (seal run old new decision) = empty new ≡ false
IsComplete (restart cleared ws) = Unit

call-IsGood :
    (h : Hashes) (c : Call) (s : Store) → IsComplete c → IsGood h s → IsGood h (call h c s)
unfolding call IsComplete reopen
call-IsGood h (persist r old) s p g = persist_record-IsGood h r old s g p
call-IsGood h (persist_batch rs run old given) s p g =
    persist_records-IsGood h rs run old given s p g
call-IsGood h (seal run old new decision) s p g = seal_run-IsGood h run old new decision s p g
call-IsGood h (restart cleared ws) s p g =
    open_store-IsGood h s.max_records_per_run s.seal_retention _ g.recoverable

pub after-IsGood :
    (h : Hashes) (cs : List Call) (s : Store)
    → All IsComplete cs
    → IsGood h s
    → IsGood h (after h cs s)
unfolding after
after-IsGood h [] s p g = g
after-IsGood h (c ∷ cs) s p g = after-IsGood h cs (call h c s) p.1 (call-IsGood h c s p.0 g)

-- A store that is opened on an empty directory, whose writes go as is listed.
unfoldable pub started : Hashes → ℕ → ℕ → List Write → Store
started h max_records retention ws =
    open_store h max_records retention (record { orphan = false; contents = absent; writes = ws })

pub started-IsGood : (h : Hashes) (m r : ℕ) (ws : List Write) → IsGood h (started h m r ws)
unfolding started
started-IsGood h m r ws = open_store-IsGood h m r _ nothing

-- The store that a row of calls leaves holds what is in its file, unless it has failed closed.
pub after-IsDurable :
    (h : Hashes) (m r : ℕ) (ws : List Write) (cs : List Call) (s : Store)
    → All IsComplete cs
    → after h cs (started h m r ws) ≡ s
    → s.fatal_error ≡ none
    → IsDurable h s
after-IsDurable h m r ws cs s p e f =
    (subst (IsGood h) e (after-IsGood h cs (started h m r ws) p (started-IsGood h m r ws))).durable
      f

-- After any row of calls on a new store, restarts among them and writes that fail at any point: if
-- the store has not failed closed, the process that is started next on the directory has the same
-- run, seals and counters, and under each key the same record. (The records have their fields, and
-- a seal names a generation.)
pub after_restart :
    (h : Hashes) (max_records retention : ℕ) (ws : List Write) (cs : List Call) (s : Store)
    → All IsComplete cs
    → after h cs (started h max_records retention ws) ≡ s
    → s.fatal_error ≡ none
    → (open_store h s.max_records_per_run s.seal_retention s.disk ≡ filed s)
      × ((k : RecordKey) → lookup k (filed s).records ≡ lookup k s.records)
unfolding filed
after_restart h m r ws cs s p e f =
    let d = after-IsDurable h m r ws cs s p e f in
    (open_store-filed h s d f, λ k. lookup-reread k s.records d.named d.loadable.apart)

-- After any row of calls on a new store, restarts among them and writes that fail at any point: if
-- the store has not failed closed, all that `_load` asks of a file holds in memory. The records are
-- of one run and one decision, with different keys and leases, within the cap; the seals are of
-- different runs, in rising order, below the next number, within the retention. (The records have
-- their fields, and a seal names a generation.)
pub after-IsLoadable :
    (h : Hashes) (max_records retention : ℕ) (ws : List Write) (cs : List Call) (s : Store)
    → All IsComplete cs
    → after h cs (started h max_records retention ws) ≡ s
    → s.fatal_error ≡ none
    → IsLoadable s.max_records_per_run s.seal_retention s.active_run
        (values s.records)
        s.seals
        s.next_seal_sequence
after-IsLoadable h m r ws cs s p e f = (after-IsDurable h m r ws cs s p e f).loadable
