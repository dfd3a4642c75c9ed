-- ===== src/Scheduler/Calls.antt =====
-- Any row of calls on a PDScheduler, prism_serve/scheduler/scheduler.py.
use prism_serve.Base.{ℕ, String, Option, List, nat_key, text_key, pair_key}
use prism_serve.Sample.{KvUsageSample}
use prism_serve.Scheduler.State.{Uncertain, LeaseState, DecodeSlotLease, Env, PdScheduler}
use prism_serve.Scheduler.Instances.{
  register_instance, deregister_instance, quarantine_instance, Report, reconcile_instance,
}
use prism_serve.Scheduler.Pick.{pick_prefill_instance, pick_decode_instance, update_kv_usage}
use prism_serve.Scheduler.Leases.{
  put_lease, give_back, take_back, reserve_decode_slot, adopt_picked_decode_slot,
  commit_decode_slot, release_decode_slot, quarantine_decode_slot, release_quarantined_decode_slot,
  restore_quarantined_decode_slot, restore_replaced_decode_slot,
}
use prism_serve.Scheduler.Feedback.{on_prefill_done, free_one, on_decode_finished}
use prism_serve.Scheduler.Keep.{
  reserve-keeps, adopt-keeps, commit-keeps, release-keeps, quarantine-keeps,
  release_quarantined-keeps, restore_quarantined-keeps, restore_replaced-keeps, finished-keeps,
}
use prism_serve.Scheduler.Sound.{
  Sound, take_back-Sound, give_back-Sound, free_one-Sound, put_lease-Sound,
}
use prism_serve.Scheduler.Steps.{
  pick_decode-Sound, pick_prefill-Sound, on_prefill_done-Sound, update_kv_usage-Sound,
  deregister_instance-Sound, quarantine_instance-Sound, register_instance-Sound,
  reconcile_instance-Sound,
}

pub data Call : Type 0 where
  registers : String → String → ℕ → String → List String → Call
  deregisters : String → Call
  quarantines : String → Option Uncertain → Option Uncertain → Call
  reconciles : String → Report → Call
  picks_prefill picks_decode : Option String → Call
  reserves adopts : String → String → String → Call
  commits releases quarantines_lease : String → Call
  releases_quarantined : String → Option String → Option String → Call
  restores_quarantined : String → String → String → Call
  restores_replaced : String → String → String → LeaseState → Call
  prefill_done : String → Option String → Call
  decode_finished : String → Option String → String → Call
  samples : String → Option KvUsageSample → Call

-- The scheduler after a call, raised or not.
unfoldable pub step : Env → Call → PdScheduler → PdScheduler
step env (registers i role max_slots epoch ids) s =
    (register_instance i role max_slots epoch ids s).1
step env (deregisters i) s = deregister_instance i s
step env (quarantines i t d) s = (quarantine_instance env i t d s).1
step env (reconciles i p) s = (reconcile_instance i p s).1
step env (picks_prefill required) s = (pick_prefill_instance env required s).1
step env (picks_decode required) s = (pick_decode_instance env required s).1
step env (reserves i req op) s = (reserve_decode_slot env i req op s).1
step env (adopts i req op) s = (adopt_picked_decode_slot env i req op s).1
step env (commits op) s = (commit_decode_slot op s).1
step env (releases op) s = (release_decode_slot op s).1
step env (quarantines_lease op) s = (quarantine_decode_slot op s).1
step env (releases_quarantined op l c) s = (release_quarantined_decode_slot op l c s).1
step env (restores_quarantined op l c) s = (restore_quarantined_decode_slot op l c s).1
step env (restores_replaced op l c p) s = (restore_replaced_decode_slot op l c p s).1
step env (prefill_done i epoch) s = (on_prefill_done i epoch s).1
step env (decode_finished i epoch op) s = (on_decode_finished i epoch op s).1
step env (samples i sample) s = update_kv_usage i sample s

written : (op : String) (l : DecodeSlotLease) (s : PdScheduler) → Sound s → Sound (put_lease op l s)
written op l s v = put_lease-Sound s v op l

given : (i : String) (s : PdScheduler) → Sound s → Sound (give_back i s)
given i s v = give_back-Sound s v i

taken : (i : String) (s : PdScheduler) → Sound s → Sound (take_back i s)
taken i s v = take_back-Sound s v i

freed : (i : String) (s : PdScheduler) → Sound s → Sound (free_one i s).1
freed i s v = free_one-Sound s v i

pub step-Sound : (env : Env) (call : Call) (s : PdScheduler) → Sound s → Sound (step env call s)
unfolding step
step-Sound env (registers i role max_slots epoch ids) s v =
    register_instance-Sound s v i role max_slots epoch ids
step-Sound env (deregisters i) s v = deregister_instance-Sound s v i
step-Sound env (quarantines i t d) s v = quarantine_instance-Sound s v env i t d
step-Sound env (reconciles i p) s v = reconcile_instance-Sound s v i p
step-Sound env (picks_prefill required) s v = pick_prefill-Sound s v env required
step-Sound env (picks_decode required) s v = pick_decode-Sound s v env required
step-Sound env (reserves i req op) s v =
    reserve-keeps Sound written given taken freed s v env i req op
step-Sound env (adopts i req op) s v = adopt-keeps Sound written given taken freed s v env i req op
step-Sound env (commits op) s v = commit-keeps Sound written given taken freed s v op
step-Sound env (releases op) s v = release-keeps Sound written given taken freed s v op
step-Sound env (quarantines_lease op) s v = quarantine-keeps Sound written given taken freed s v op
step-Sound env (releases_quarantined op l c) s v =
    release_quarantined-keeps Sound written given taken freed s v op l c
step-Sound env (restores_quarantined op l c) s v =
    restore_quarantined-keeps Sound written given taken freed s v op l c
step-Sound env (restores_replaced op l c p) s v =
    restore_replaced-keeps Sound written given taken freed s v op l c p
step-Sound env (prefill_done i epoch) s v = on_prefill_done-Sound s v i epoch
step-Sound env (decode_finished i epoch op) s v =
    finished-keeps Sound written given taken freed s v i epoch op
step-Sound env (samples i sample) s v = update_kv_usage-Sound s v i sample
