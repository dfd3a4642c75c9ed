-- ===== src/Scheduler/Feedback.antt =====
-- Feedback from the infer layer: finished prefills and decodes, prism_serve/scheduler/scheduler.py.
use prism_serve.Base.{
  ◌+◌, ◌-◌, String, Bool, true, false, not, ◌||◌, Option, none, some, leb, if◌then◌else◌, get_or,
  ◌==◌, nat_key, text_key, pair_key,
}
use prism_serve.Base.Dict.{lookup, insert}
use prism_serve.Scheduler.State.{released, quarantined, PdScheduler}
use prism_serve.Scheduler.Instances.{epoch_matches}
use prism_serve.Scheduler.Leases.{same, put_lease}

-- `assigned_epoch is not None and not self.epoch_matches(instance_id, assigned_epoch)`
abbrev pub is_outdated : String → Option String → PdScheduler → Bool
is_outdated instance_id none s = false
is_outdated instance_id (some assigned_epoch) s = not (epoch_matches s instance_id assigned_epoch)

unfoldable pub on_prefill_done : String → Option String → PdScheduler → Bool × PdScheduler
on_prefill_done instance_id assigned_epoch s =
    if is_outdated instance_id assigned_epoch s
    then (false, s)
    else elim (lookup instance_id s.prefill_load) [
      | none ↦ (false, s)
      | some load ↦ (true, record s { prefill_load = insert instance_id (load - 1) s.prefill_load })
    ]

-- One slot more, unless all are free.
unfoldable pub free_one : String → PdScheduler → Bool × PdScheduler
free_one instance_id s = elim (lookup instance_id s.decode_free_slots) [
  | none ↦ (false, s)
  | some free ↦
      if leb (get_or (lookup instance_id s.decode_max_slots) 0) free then (false, s) else (
        true,
        record s { decode_free_slots = insert instance_id (free + 1) s.decode_free_slots },
      )
]

unfoldable pub on_decode_finished :
    String → Option String → String → PdScheduler → Bool × PdScheduler
on_decode_finished instance_id assigned_epoch operation_id s =
    if is_outdated instance_id assigned_epoch s
    then (false, s)
    else if operation_id == ""
    then free_one instance_id s
    else elim (lookup operation_id s.slot_leases) [
      | none ↦ (false, s)
      | some l ↦
          if not (l.instance_id == instance_id) || same l.state released || same l.state quarantined
          then (false, s)
          else free_one instance_id (put_lease operation_id (record l { state = released }) s)
    ]
