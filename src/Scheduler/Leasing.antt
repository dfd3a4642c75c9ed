-- ===== src/Scheduler/Leasing.antt =====
-- Any row of calls on leases: prism_serve/scheduler/scheduler.py.
use prism_serve.Base.{
  String, ◌≡◌, false, Option, List, [], ◌∷◌, ◌==◌, nat_key, text_key, pair_key, All,
}
use prism_serve.Scheduler.State.{Env, PdScheduler}
use prism_serve.Scheduler.Leases.{
  reserve_decode_slot, commit_decode_slot, release_decode_slot, quarantine_decode_slot,
  release_quarantined_decode_slot,
}
use prism_serve.Scheduler.Feedback.{on_decode_finished}
use prism_serve.Scheduler.Conservation.{
  AllConserved, commit-AllConserved, finished-AllConserved, quarantine-AllConserved,
  release-AllConserved, release_quarantined-AllConserved, reserve-AllConserved,
}

pub data LeaseCall : Type 0 where
  reserves : Env → String → String → String → LeaseCall
  commits releases quarantines : String → LeaseCall
  releases_quarantined : String → Option String → Option String → LeaseCall
  finishes : String → Option String → String → LeaseCall

-- A decode finishes with the name of its operation.
abbrev pub IsNamed : LeaseCall → Type 0
IsNamed (finishes j epoch op) = (op == "") ≡ false
IsNamed (reserves env j req op) = Unit
IsNamed (commits op) = Unit
IsNamed (releases op) = Unit
IsNamed (quarantines op) = Unit
IsNamed (releases_quarantined op l c) = Unit

-- The scheduler after a row of calls on leases, the last one first, raised or not.
unfoldable pub after : List LeaseCall → PdScheduler → PdScheduler
after [] s = s
after (reserves env j req op ∷ calls) s = (reserve_decode_slot env j req op (after calls s)).1
after (commits op ∷ calls) s = (commit_decode_slot op (after calls s)).1
after (releases op ∷ calls) s = (release_decode_slot op (after calls s)).1
after (quarantines op ∷ calls) s = (quarantine_decode_slot op (after calls s)).1
after (releases_quarantined op l c ∷ calls) s =
    (release_quarantined_decode_slot op l c (after calls s)).1
after (finishes j epoch op ∷ calls) s = (on_decode_finished j epoch op (after calls s)).1

-- Where for every decode instance the free slots and the leases that are not released make up the
-- maximum, they still do after any row of calls that reserve, commit, roll back, quarantine or release
-- leases, or finish the decode of a named operation: no slot is lost, and none is given twice.
pub after-AllConserved :
    (calls : List LeaseCall) (s : PdScheduler)
    → All IsNamed calls
    → AllConserved s
    → AllConserved (after calls s)
unfolding after
after-AllConserved [] s a v = v
after-AllConserved (reserves env j req op ∷ calls) s a v =
    reserve-AllConserved (after calls s) (after-AllConserved calls s a.1 v) env j req op
after-AllConserved (commits op ∷ calls) s a v =
    commit-AllConserved (after calls s) (after-AllConserved calls s a.1 v) op
after-AllConserved (releases op ∷ calls) s a v =
    release-AllConserved (after calls s) (after-AllConserved calls s a.1 v) op
after-AllConserved (quarantines op ∷ calls) s a v =
    quarantine-AllConserved (after calls s) (after-AllConserved calls s a.1 v) op
after-AllConserved (releases_quarantined op l c ∷ calls) s a v =
    release_quarantined-AllConserved (after calls s) (after-AllConserved calls s a.1 v) op l c
after-AllConserved (finishes j epoch op ∷ calls) s a v =
    finished-AllConserved (after calls s) (after-AllConserved calls s a.1 v) j epoch op a.0
