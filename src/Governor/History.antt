-- ===== src/Governor/History.antt =====
-- Any history of calls on a TransferGovernor, prism_serve/scheduler/transfer_governor.py.
use prism_serve.Base.{◌≤◌, String, ◌≡◌, Option, if◌then◌else◌, ◌==◌, nat_key, text_key, pair_key}
use prism_serve.Base.Dict.{Dict, sum_by}
use prism_serve.Sample.{KvUsageSample}
use prism_serve.Governor.State.{
  TransferTask, Config, Env, Governor, init, pair_id, pair_bytes, dst_bytes,
}
use prism_serve.Governor.Transfers.{
  submit, on_complete, cancel, tick, update_kv_usage, set_expected_epochs,
}
use prism_serve.Governor.Retry.{on_transfer_failure, finish_request}
use prism_serve.Governor.Ledger.{
  Inv, IsCapped, init-Inv, held_count, IsObjectOf, submit-Inv, on_complete-Inv, cancel-Inv,
  tick-Inv, update_kv_usage-Inv, set_expected_epochs-Inv, on_transfer_failure-Inv,
  finish_request-Inv,
}

pub data Call : Type 0 where
  submits completes : TransferTask → Call
  cancels : String → Option String → Call
  ticks : Call
  samples : String → Option KvUsageSample → Call
  expects : Dict String String → Call
  fails finishes : String → Call

-- The governor after a call, raised or not.
unfoldable pub step : Env → Call → Governor → Governor
step env (submits task) g = (submit env task g).1
step env (completes task) g = (on_complete env task g).1
step env (cancels req_id operation_id) g = (cancel req_id operation_id g).1
step env ticks g = (tick env g).1
step env (samples instance_id sample) g = (update_kv_usage env instance_id sample g).1
step env (expects epochs) g = set_expected_epochs epochs g
step env (fails req_id) g = (on_transfer_failure req_id g).1
step env (finishes req_id) g = finish_request req_id g

-- A request is submitted only while nothing of it is held, and a callback belongs to its object.
abbrev pub IsAdmissible : Call → Governor → Type 0
IsAdmissible (submits task) g = held_count task.req_id g ≡ 0
IsAdmissible (completes task) g = IsObjectOf g task
IsAdmissible (cancels req_id operation_id) g = Unit
IsAdmissible ticks g = Unit
IsAdmissible (samples instance_id sample) g = Unit
IsAdmissible (expects epochs) g = Unit
IsAdmissible (fails req_id) g = Unit
IsAdmissible (finishes req_id) g = Unit

-- What a new governor reaches by calls, each in an environment of its own.
pub data Reach (c : Config) : Governor → Type 0 where
  start : Reach c (init c)
  next :
      {g : Governor} (env : Env) (call : Call)
      → Reach c g
      → IsAdmissible call g
      → Reach c (step env call g)

step-Inv :
    (env : Env) (call : Call) (g : Governor) → IsAdmissible call g → Inv g → Inv (step env call g)
unfolding step
step-Inv env (submits task) g a v = submit-Inv env task g v a
step-Inv env (completes task) g a v = on_complete-Inv env task g v a
step-Inv env (cancels req_id operation_id) g a v = cancel-Inv req_id operation_id g v
step-Inv env ticks g a v = tick-Inv env g v
step-Inv env (samples instance_id sample) g a v = update_kv_usage-Inv env instance_id sample g v
step-Inv env (expects epochs) g a v = set_expected_epochs-Inv epochs g v
step-Inv env (fails req_id) g a v = on_transfer_failure-Inv req_id g v
step-Inv env (finishes req_id) g a v = finish_request-Inv req_id g v

pub Reach-Inv : {c : Config} {g : Governor} → Reach c g → Inv g
Reach-Inv {c} start = init-Inv c
Reach-Inv (next {g = g} env call r a) = step-Inv env call g a (Reach-Inv r)

-- In every state that a new governor reaches by admissible calls, the byte counter of a pair is the
-- sum of the sizes of the tasks in flight on that pair, and the counter of a destination is the sum
-- over the tasks in flight to it.
pub Reach-accounting :
    {c : Config} {g : Governor}
    → Reach c g
    → ((pair : String)
        → pair_bytes g pair
          ≡ sum_by (λ t. if pair_id t.src t.dst == pair then t.kv_size else 0) g.inflight_tasks)
      × ((dst : String)
          → dst_bytes g dst ≡ sum_by (λ t. if t.dst == dst then t.kv_size else 0) g.inflight_tasks)
Reach-accounting r = ((Reach-Inv r).pairs, (Reach-Inv r).dsts)

-- In every state that a new governor reaches by admissible calls, the bytes in flight on a pair are
-- within the configured cap, or they are those of a single task in flight.
pub Reach-IsCapped : {c : Config} {g : Governor} → Reach c g → (pair : String) → IsCapped pair g
Reach-IsCapped r pair = (Reach-Inv r).capped pair

-- In every state that a new governor reaches by admissible calls, no request has two transfers, in
-- flight or deferred.
pub Reach-single :
    {c : Config} {g : Governor} → Reach c g → (req_id : String) → held_count req_id g ≤ 1
Reach-single r req_id = (Reach-Inv r).single req_id
