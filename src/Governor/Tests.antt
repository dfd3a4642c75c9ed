-- ===== src/Governor/Tests.antt =====
-- Runs of the governor at concrete inputs, and instances of its theorems.
use prism_serve.Governor.Cancel.{cancel_forgets, flush_deferred_loses}
use prism_serve.Governor.Retry.{recompute, abort}
use prism_serve.Governor.Budget.{failures, failures_budget}
use prism_serve.Governor.Fifo.{Sends, flush_deferred-Sends}
use prism_serve.Base.{
  ℕ, String, ◌≡◌, refl, true, false, some, [], ◌∷◌, nat_key, text_key, pair_key, arith,
  if◌then◌else◌, none, ◌==◌, ◌≤◌, ok, err,
}
use prism_serve.Base.Dict.{lookup, insert, sum_by, erase}
use prism_serve.Base.Int.{pos}
use prism_serve.Sample.{KvUsageSample}
use prism_serve.Governor.State.{
  TransferTask, Config, Env, Governor, init, pair_id, pair_bytes, queue,
}
use prism_serve.Governor.Admission.{can_send, sample_is_fresh, is_congested, cap, fits}
use prism_serve.Governor.Transfers.{
  hold, dispatch, submit, set_queue, update_kv_usage, flushes, store_sample, crosses,
  set_expected_epochs, keep_expected, flush_deferred, cancel, flush_queue, task_state, on_complete,
  absent, dispatch_error, is_current, cancel_queues, fire, names_task, drop_task,
}
use prism_serve.Governor.Ledger.{count_in, IsCapped, held_count}
use prism_serve.Governor.History.{
  Reach, start, next, submits, cancels, expects, samples, step, Reach-IsCapped, Reach-accounting,
  Reach-single, Reach-Inv, Call,
}

abbrev settings : Config
settings = record {
  unit = 100;
  high_watermark = 85;
  low_watermark = 70;
  max_bytes = 1000;
  stale_after = 10;
  max_recompute = 2;
}

abbrev calm : Env
calm = record { now = 5; can_govern = λ _. true; takes = λ _. true }

-- A client that raises.
abbrev broken : Env
broken = record calm { takes = λ _. false }

-- `step`, with everything that a run of it computes through.
machine : Env → Call → Governor → Governor
unfolding step init set_expected_epochs keep_expected update_kv_usage flushes crosses store_sample
    submit can_send sample_is_fresh is_congested cap fits dispatch hold pair_id lookup insert sum_by
    count_in set_queue flush_deferred flush_queue on_complete is_current fire drop_task erase cancel
    cancel_queues names_task
machine = step

abbrev transfer : ℕ → String → ℕ → TransferTask
transfer ident req_id kv_size = record {
  ident = ident;
  req_id = req_id;
  src = "p0";
  dst = "d0";
  kv_size = kv_size;
  operation_id = "op";
  priority = 1;
}

abbrev sample : KvUsageSample
sample = record { ratio = pos 40; instance_epoch = "e1"; sampled_at = 1 }

abbrev ready : Governor
ready =
    step calm (samples "d0" (some sample)) (step calm (expects (("d0", "e1") ∷ [])) (init settings))

ready-Reach : Reach settings ready
ready-Reach = next calm _ (next calm _ start tt) tt

-- One task in flight, and one that does not fit behind it.
abbrev first_task : TransferTask
first_task = transfer 1 "r1" 600

abbrev second_task : TransferTask
second_task = transfer 2 "r2" 700

abbrev busy : Governor
busy = step calm (submits second_task) (step calm (submits first_task) ready)

busy-Reach : Reach settings busy
unfolding machine
busy-Reach =
    next calm (submits second_task) (next calm (submits first_task) ready-Reach (omega arith))
      (omega arith)

busy_bytes : pair_bytes busy "p0--d0" ≡ 600
unfolding machine
busy_bytes = refl

busy-queue : queue busy "d0" ≡ second_task ∷ []
unfolding machine
busy-queue = refl

busy_flushed : (flush_deferred calm "d0" busy).0 ≡ ok tt
unfolding machine
busy_flushed = refl

-- The first task is done, so the second is sent.
done_sent : (on_complete calm first_task busy).1.sent ≡ first_task ∷ second_task ∷ []
unfolding machine
done_sent = refl

Reach-accounting_example :
    pair_bytes busy "p0--d0"
    ≡ sum_by (λ t. if pair_id t.src t.dst == "p0--d0" then t.kv_size else 0) busy.inflight_tasks
Reach-accounting_example = (Reach-accounting busy-Reach).0 "p0--d0"

Reach-IsCapped_example : IsCapped "p0--d0" busy
Reach-IsCapped_example = Reach-IsCapped busy-Reach "p0--d0"

Reach-single_example : held_count "r2" busy ≤ 1
Reach-single_example = Reach-single busy-Reach "r2"

ready_flush : flush_deferred calm "d0" ready ≡ (ok tt, ready)
unfolding machine
ready_flush = refl

relieved_queue : queue (cancel "r1" none busy).1 "d0" ≡ second_task ∷ []
unfolding machine
relieved_queue = refl

relieved_admits : can_send broken (cancel "r1" none busy).1 "d0" 700 1 (some "p0") ≡ true
unfolding machine
relieved_admits = refl

no_failures : lookup "r1" ready.recompute_counts ≡ none
unfolding machine
no_failures = refl

flush_deferred-Sends_example : Sends calm "d0" ready (queue ready "d0") ready
flush_deferred-Sends_example = flush_deferred-Sends calm "d0" ready ready ready_flush

cancel_forgets_example :
    let g' = (cancel "r2" none busy).1 in
    (task_state "r2" none g' ≡ absent) × (on_complete calm second_task g' ≡ (ok tt, g'))
cancel_forgets_example = cancel_forgets calm second_task busy (Reach-Inv busy-Reach)

-- Without the first task, the head of the queue may be sent.
abbrev relieved : Governor
relieved = (cancel "r1" none busy).1

relieved-Reach : Reach settings relieved
unfolding step
relieved-Reach = next calm (cancels "r1" none) busy-Reach tt

flush_deferred_loses_example :
    let (r, g') = flush_deferred broken "d0" relieved in
    (r ≡ err dispatch_error) × (task_state "r2" none g' ≡ absent)
flush_deferred_loses_example =
    flush_deferred_loses broken "d0" second_task [] relieved (Reach-Inv relieved-Reach)
      relieved_queue relieved_admits refl

failures_budget_example : failures 3 "r1" ready ≡ recompute ∷ recompute ∷ abort ∷ []
unfolding machine failures
failures_budget_example = failures_budget "r1" ready no_failures
