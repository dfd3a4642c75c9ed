-- ===== src/Governor/Cancel.antt =====
-- Cancellation, stale callbacks, and what a failed flush loses:
-- prism_serve/scheduler/transfer_governor.py.
use prism_serve.Base.{
  String, ◌≡◌, refl, inl, inr, Bool, true, false, not, none, some, List, [], ◌∷◌, arith,
  Option-cases, nat_key, text_key, pair_key, str_eq_refl, filter, any, ok, err,
}
use prism_serve.Base.Dict.{Dict, lookup, erase, lookup-erase, sum_by}
use prism_serve.Governor.State.{TransferTask, Env, Governor, queue}
use prism_serve.Governor.Admission.{can_send}
use prism_serve.Governor.Fifo.{flush_queue_raised}
use prism_serve.Governor.Transfers.{
  hold, drop_task, dispatch_error, set_queue, flush_deferred, on_complete, is_current, cancel,
  cancel_queues, any_deferred, names_task, task_state, absent,
}
use prism_serve.Governor.Ledger.{Inv, count_in, set_queue_fresh}

any-filter-not :
    (p : TransferTask → Bool) (q : List TransferTask) → any p (filter (λ t. not (p t)) q) ≡ false
any-filter-not p [] = refl
any-filter-not p (t ∷ q) = ground (arith, any-filter-not p q)

any_deferred-cancel_queues :
    (p : TransferTask → Bool) (d : Dict String (List TransferTask))
    → any_deferred p (cancel_queues p d) ≡ false
unfolding any_deferred cancel_queues
any_deferred-cancel_queues p [] = refl
any_deferred-cancel_queues p ((dst, q) ∷ d) =
    rw (any-filter-not p q) (any_deferred-cancel_queues p d)

lookup-erase_self : (k : String) (d : Dict String TransferTask) → lookup k (erase k d) ≡ none
lookup-erase_self k d = simp (lookup-erase, str_eq_refl)

cancel_inflight :
    (req_id : String) (g : Governor)
    → Inv g
    → lookup req_id (cancel req_id none g).1.inflight_tasks ≡ none
unfolding cancel drop_task
cancel_inflight req_id g v = elim (Option-cases (lookup req_id g.inflight_tasks)) [
  | inl e ↦ rw (e, cancel) e
  | inr (t, e) ↦ rw (e, cancel) (simp (lookup-erase, v.keyed req_id t e, str_eq_refl))
]

cancel_deferred :
    (req_id : String) (g : Governor)
    → (cancel req_id none g).1.deferred ≡ cancel_queues (names_task req_id none) g.deferred
unfolding cancel drop_task
cancel_deferred req_id g = ground arith

absent_state :
    (req_id : String) (g : Governor)
    → lookup req_id g.inflight_tasks ≡ none
    → any_deferred (names_task req_id none) g.deferred ≡ false
    → task_state req_id none g ≡ absent
unfolding task_state
absent_state req_id g e h = ground arith

stale :
    (task : TransferTask) (g : Governor)
    → lookup task.req_id g.inflight_tasks ≡ none
    → is_current task g ≡ false
unfolding is_current
stale task g h = ground arith

-- A callback of a task that is not in flight changes nothing.
stale_callback :
    (env : Env) (task : TransferTask) (g : Governor)
    → lookup task.req_id g.inflight_tasks ≡ none
    → on_complete env task g ≡ (ok tt, g)
unfolding on_complete
stale_callback env task g h = rw (stale task g h)

-- Once a request is cancelled outright, in a state where the ledger invariant holds, nothing of it
-- is in flight or deferred, and a late callback of any of its tasks changes nothing.
pub cancel_forgets :
    (env : Env) (task : TransferTask) (g : Governor)
    → Inv g
    → let g' = (cancel task.req_id none g).1 in
      (task_state task.req_id none g' ≡ absent) × (on_complete env task g' ≡ (ok tt, g'))
cancel_forgets env task g v =
    let g' = (cancel task.req_id none g).1 in
    let e = cancel_inflight task.req_id g v in
    (
      absent_state task.req_id g' e (
          rw (cancel_deferred task.req_id g)
            (any_deferred-cancel_queues (names_task task.req_id none) g.deferred)),
      stale_callback env task g' e,
    )

none_in :
    (r : String) (q : List TransferTask) → count_in r q ≡ 0 → any (names_task r none) q ≡ false
unfolding count_in names_task
none_in r [] h = refl
none_in r (t ∷ q) h = ground (arith, none_in r q)

none_deferred :
    (r : String) (d : Dict String (List TransferTask))
    → sum_by (count_in r) d ≡ 0
    → any_deferred (names_task r none) d ≡ false
unfolding any_deferred sum_by
none_deferred r [] h = refl
none_deferred r ((dst, q) ∷ d) h = ground (arith, none_in r q, none_deferred r d)

drop_task-hold-lookup :
    (task : TransferTask) (g : Governor)
    → lookup task.req_id (drop_task task (hold task g)).inflight_tasks ≡ none
unfolding drop_task
drop_task-hold-lookup task g = lookup-erase_self task.req_id (hold task g).inflight_tasks

drop_task-hold-deferred :
    (task : TransferTask) (g : Governor) → (drop_task task (hold task g)).deferred ≡ g.deferred
unfolding drop_task hold
drop_task-hold-deferred task g = refl

-- When the client raises on the head of a deferred queue that may be sent, the flush raises too, and
-- the task is lost: it is neither in flight nor deferred. (The ledger invariant is assumed.)
pub flush_deferred_loses :
    (env : Env) (dst : String) (task : TransferTask) (q : List TransferTask) (g : Governor)
    → Inv g
    → queue g dst ≡ task ∷ q
    → can_send env g task.dst task.kv_size task.priority (some task.src) ≡ true
    → env.takes task ≡ false
    → let (r, g') = flush_deferred env dst g in
      (r ≡ err dispatch_error) × (task_state task.req_id none g' ≡ absent)
unfolding flush_deferred
flush_deferred_loses env dst task q g v e admitted raised =
    let g2 = set_queue dst q g in
    let fresh = set_queue_fresh dst task q g e v in
    rw (e, flush_queue_raised env dst q task g admitted raised)
      (
        refl,
        absent_state task.req_id (drop_task task (hold task g2)) (drop_task-hold-lookup task g2) (
            rw (drop_task-hold-deferred task g2)
              (none_deferred task.req_id g2.deferred (omega (arith, fresh)))),
      )
