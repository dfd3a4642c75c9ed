-- ===== src/Governor/Transfers.antt =====
-- The transfer ledger: dispatch, completion, cancellation and the deferred queues,
-- prism_serve/scheduler/transfer_governor.py.
use prism_serve.Base.{
  ◌+◌, ◌-◌, String, Bool, true, false, not, ◌&&◌, ◌||◌, Option, none, some, List, [], ◌∷◌, ◌++◌,
  if◌then◌else◌, ◌==◌, nat_key, text_key, pair_key, filter, any, Error, runtime_error, ok, err,
  Action, modify, ◌>>◌,
}
use prism_serve.Base.Dict.{Dict, keys, lookup, insert, erase}
use prism_serve.Base.Int.{clamp_unit, at_least}
use prism_serve.Sample.{KvUsageSample}
use prism_serve.Governor.State.{TransferTask, Env, Governor, pair_id, pair_bytes, dst_bytes, queue}
use prism_serve.Governor.Admission.{can_send, sample_is_fresh, epoch_expected}

-- TransferDispatchError
abbrev pub dispatch_error : Error
dispatch_error = runtime_error "transfer dispatch failed"

-- Add a task to the ledger.
unfoldable pub hold : TransferTask → Governor → Governor
hold task g =
    let pair = pair_id task.src task.dst in
    record g {
      pair_bytes_inflight = insert pair (pair_bytes g pair + task.kv_size) g.pair_bytes_inflight;
      bytes_inflight = insert task.dst (dst_bytes g task.dst + task.kv_size) g.bytes_inflight;
      inflight_tasks = insert task.req_id task g.inflight_tasks;
    }

-- Take a task off the ledger. `max(0, a - b)` is the natural numbers' subtraction.
unfoldable pub drop_task : TransferTask → Governor → Governor
drop_task task g =
    let pair = pair_id task.src task.dst in
    record g {
      pair_bytes_inflight = insert pair (pair_bytes g pair - task.kv_size) g.pair_bytes_inflight;
      bytes_inflight = insert task.dst (dst_bytes g task.dst - task.kv_size) g.bytes_inflight;
      inflight_tasks = erase task.req_id g.inflight_tasks;
    }

-- `self._inflight_tasks.get(task.req_id) is task`
unfoldable pub is_current : TransferTask → Governor → Bool
is_current task g = elim (lookup task.req_id g.inflight_tasks) [
  | none ↦ false
  | some current ↦ current.ident == task.ident
]

-- `_dispatch`: the client takes the task, or raises and the ledger is rolled back.
unfoldable pub dispatch : Env → TransferTask → Action Governor (Unit {0})
dispatch env task g =
    let held = hold task g in
    if env.takes task
    then (ok tt, record held { sent = held.sent ++ task ∷ [] })
    else (err dispatch_error, if is_current task held then drop_task task held else held)

unfoldable pub set_queue : String → List TransferTask → Governor → Governor
set_queue dst q g = record g { deferred = insert dst q g.deferred }

-- The loop of `_flush_deferred`: the front task leaves the queue before it is dispatched.
unfoldable pub flush_queue : Env → String → List TransferTask → Action Governor (Unit {0})
flush_queue env dst [] g = (ok tt, g)
flush_queue env dst (task ∷ q) g =
    let rest = flush_queue env dst q in
    if can_send env g task.dst task.kv_size task.priority (some task.src)
    then (do modify (set_queue dst q); dispatch env task; rest) g
    else (ok tt, g)

unfoldable pub flush_deferred : Env → String → Action Governor (Unit {0})
flush_deferred env dst g = flush_queue env dst (queue g dst) g

unfoldable pub submit : Env → TransferTask → Action Governor (Unit {0})
submit env task g =
    if can_send env g task.dst task.kv_size task.priority (some task.src)
    then dispatch env task g
    else (ok tt, set_queue task.dst (queue g task.dst ++ task ∷ []) g)

-- `if task.on_complete: task.on_complete()`
unfoldable pub fire : TransferTask → Governor → Governor
fire task g = record g { completed = g.completed ++ task ∷ [] }

-- `_on_complete`; the task's own callback is recorded in `completed`.
unfoldable pub on_complete : Env → TransferTask → Action Governor (Unit {0})
on_complete env task g =
    if is_current task g
    then flush_deferred env task.dst (fire task (drop_task task g))
    else (ok tt, g)

-- `req_id`, and `operation_id` unless that is None
unfoldable pub names_task : String → Option String → TransferTask → Bool
names_task req_id none task = task.req_id == req_id
names_task req_id (some operation_id) task =
    (task.req_id == req_id) && (task.operation_id == operation_id)

-- The first part of `cancel`: each queue without the cancelled tasks.
unfoldable pub cancel_queues :
    (TransferTask → Bool) → Dict String (List TransferTask) → Dict String (List TransferTask)
cancel_queues p [] = []
cancel_queues p ((dst, q) ∷ d) = (dst, filter (λ t. not (p t)) q) ∷ cancel_queues p d

unfoldable pub any_deferred : (TransferTask → Bool) → Dict String (List TransferTask) → Bool
any_deferred p [] = false
any_deferred p ((dst, q) ∷ d) = any p q || any_deferred p d

abbrev pub operation_fits : Option String → TransferTask → Bool
operation_fits none task = true
operation_fits (some operation_id) task = task.operation_id == operation_id

-- `cancel`: whether something was cancelled, and the governor without it.
unfoldable pub cancel : String → Option String → Governor → Bool × Governor
cancel req_id operation_id g =
    let p = names_task req_id operation_id in
    let g' = record g { deferred = cancel_queues p g.deferred } in
    let found = any_deferred p g.deferred in
    elim (lookup req_id g.inflight_tasks) [
      | none ↦ (found, g')
      | some task ↦
          if operation_fits operation_id task then (true, drop_task task g') else (found, g')
    ]

pub data TaskState : Type 0 where
  inflight waiting absent : TaskState

-- `task_state`, whose answers are "inflight", "deferred" and "none"
unfoldable pub task_state : String → Option String → Governor → TaskState
task_state req_id operation_id g =
    let later =
      if any_deferred (names_task req_id operation_id) g.deferred then waiting else absent in
    elim (lookup req_id g.inflight_tasks) [
      | none ↦ later
      | some task ↦ if operation_fits operation_id task then inflight else later
    ]

unfoldable pub owns : String → String → Governor → Bool
owns req_id operation_id g = elim (lookup req_id g.inflight_tasks) [
  | none ↦ any_deferred (names_task req_id (some operation_id)) g.deferred
  | some task ↦ task.operation_id == operation_id
]

-- `tick`, over the destinations that have a queue when it starts
unfoldable pub tick_from : Env → List String → Action Governor (Unit {0})
tick_from env [] g = (ok tt, g)
tick_from env (dst ∷ dsts) g = (flush_deferred env dst >> tick_from env dsts) g

unfoldable pub tick : Env → Action Governor (Unit {0})
tick env g = tick_from env (keys g.deferred) g

-- The test of `update_kv_usage`: a fresh crossing from above the high to below the low watermark
unfoldable pub crosses : Option KvUsageSample → KvUsageSample → Governor → Bool
crosses none sample g = false
crosses (some prev) sample g =
    at_least prev.ratio g.high_watermark && not (at_least sample.ratio g.low_watermark)

abbrev pub normalize : Governor → KvUsageSample → KvUsageSample
normalize g sample = record sample { ratio = clamp_unit g.unit sample.ratio }

unfoldable pub store_sample : String → KvUsageSample → Governor → Governor
store_sample instance_id sample g = record g {
  kv_usage = insert instance_id (normalize g sample) g.kv_usage;
}

-- The sample is a fresh drop from above the high to below the low watermark.
unfoldable pub flushes : Env → String → KvUsageSample → Governor → Bool
flushes env instance_id sample g =
    crosses (lookup instance_id g.kv_usage) (normalize g sample) g
    && sample_is_fresh (store_sample instance_id sample g) instance_id env.now

unfoldable pub update_kv_usage : Env → String → Option KvUsageSample → Action Governor (Unit {0})
update_kv_usage env instance_id none g =
    (ok tt, record g { kv_usage = erase instance_id g.kv_usage })
update_kv_usage env instance_id (some sample) g =
    let g' = store_sample instance_id sample g in
    if flushes env instance_id sample g then flush_deferred env instance_id g' else (ok tt, g')

unfoldable pub keep_expected :
    Dict String String → Dict String KvUsageSample → Dict String KvUsageSample
keep_expected epochs [] = []
keep_expected epochs ((instance_id, sample) ∷ d) =
    let rest = keep_expected epochs d in
    if epoch_expected sample.instance_epoch (lookup instance_id epochs)
    then (instance_id, sample) ∷ rest
    else rest

unfoldable pub set_expected_epochs : Dict String String → Governor → Governor
set_expected_epochs epochs g = record g {
  expected_epochs = epochs;
  kv_usage = keep_expected epochs g.kv_usage;
}
