-- ===== src/Governor/Ledger/Calls.antt =====
-- Every call of the governor keeps the ledger invariant.
use prism_serve.Base.{
  ◌+◌, ◌≤◌, String, ◌≡◌, refl, sym, ap, subst, inl, inr, Bool, true, false, not, Option, none, some,
  List, [], ◌∷◌, ◌++◌, arith, leb, if◌then◌else◌, nat_beq_iff, Bool-cases, Option-cases, get_or,
  nat_key, text_key, pair_key, str_eq_iff, filter, Result, ok,
}
use prism_serve.Base.Dict.{
  Dict, keys, lookup, Distinct, sum_by, insert-Distinct, sum_by-insert_new, sum_by-insert_old,
}
use prism_serve.Sample.{KvUsageSample}
use prism_serve.Governor.State.{TransferTask, Env, Governor, queue}
use prism_serve.Governor.Transfers.{
  drop_task, is_current, set_queue, submit, on_complete, flush_deferred, fire, tick, tick_from,
  cancel, cancel_queues, names_task, operation_fits, update_kv_usage, flushes, store_sample,
  set_expected_epochs,
}
use prism_serve.Governor.Retry.{on_transfer_failure, finish_request}
use prism_serve.Governor.Ledger.Dropping.{drop_task-Inv}
use prism_serve.Governor.Ledger.Holding.{Inv, count_in, is_for, held_count}
use prism_serve.Governor.Ledger.Flushing.{dispatch-Inv, flush_queue-Inv}

pub flush_deferred-Inv :
    (env : Env) (dst : String) (g : Governor) → Inv g → Inv (flush_deferred env dst g).1
unfolding flush_deferred
flush_deferred-Inv env dst g v = flush_queue-Inv env dst (queue g dst) g refl v

-- Only the fields that the invariant reads matter.
same_ledger :
    (g h : Governor)
    → h.max_bytes ≡ g.max_bytes
    → h.pair_bytes_inflight ≡ g.pair_bytes_inflight
    → h.bytes_inflight ≡ g.bytes_inflight
    → h.deferred ≡ g.deferred
    → h.inflight_tasks ≡ g.inflight_tasks
    → Inv g
    → Inv h
same_ledger g h m a b c d v = record {
  distinct = rw d v.distinct;
  queues_distinct = rw c v.queues_distinct;
  keyed = rw d v.keyed;
  pairs = rw (a, d) v.pairs;
  dsts = rw (b, d) v.dsts;
  single = rw (c, d) v.single;
  capped = rw (m, a, d) v.capped;
}

count_in-append :
    (r : String) (q : List TransferTask) (t : TransferTask)
    → count_in r (q ++ t ∷ []) ≡ count_in r q + is_for r t
unfolding count_in
count_in-append r [] t = omega arith
count_in-append r (x ∷ q) t = omega (arith, count_in-append r q t)

-- Deferring a task adds it to what is held of its request.
defer-held :
    (task : TransferTask) (g : Governor) (r : String)
    → held_count r (set_queue task.dst (queue g task.dst ++ task ∷ []) g)
      ≡ held_count r g + is_for r task
unfolding set_queue count_in
defer-held task g r = elim (Option-cases (lookup task.dst g.deferred)) [
  | inl e ↦ omega (
    arith,
    sum_by-insert_new (count_in r) task.dst (queue g task.dst ++ task ∷ []) g.deferred e,
    count_in-append r (queue g task.dst) task,
    ap (λ o. count_in r (get_or o [])) e,
  )
  | inr (q, e) ↦ omega (
    arith,
    sum_by-insert_old (count_in r) task.dst (queue g task.dst ++ task ∷ []) q g.deferred e,
    count_in-append r (queue g task.dst) task,
    ap (λ o. count_in r (get_or o [])) e,
  )
]

defer-Inv :
    (task : TransferTask) (g : Governor)
    → Inv g
    → held_count task.req_id g ≡ 0
    → Inv (set_queue task.dst (queue g task.dst ++ task ∷ []) g)
unfolding set_queue
defer-Inv task g v fresh = record {
  distinct = v.distinct;
  queues_distinct = insert-Distinct task.dst _ g.deferred v.queues_distinct;
  keyed = v.keyed;
  pairs = v.pairs;
  dsts = v.dsts;
  single = λ r. ground (arith, defer-held task g r, v.single r, str_eq_iff task.req_id r);
  capped = v.capped;
}

-- Submitting a transfer of a request that the governor does not hold keeps the ledger exact,
-- whether the task is sent, refused by the client, or deferred.
pub submit-Inv :
    (env : Env) (task : TransferTask) (g : Governor)
    → Inv g
    → held_count task.req_id g ≡ 0
    → Inv (submit env task g).1
unfolding submit
submit-Inv env task g v fresh =
    ground (arith, dispatch-Inv env task g v fresh, defer-Inv task g v fresh)

-- Equal identities belong to one object.
abbrev pub IsObjectOf : Governor → TransferTask → Type 0
IsObjectOf g task =
    (c : TransferTask)
    → lookup task.req_id g.inflight_tasks ≡ some c
    → c.ident ≡ task.ident
    → c ≡ task

is_current_there :
    (task : TransferTask) (g : Governor)
    → IsObjectOf g task
    → is_current task g ≡ true
    → lookup task.req_id g.inflight_tasks ≡ some task
unfolding is_current
is_current_there task g same h = elim (Option-cases (lookup task.req_id g.inflight_tasks)) [
  | inl e ↦ absurd (ground (arith, h, e))
  | inr (c, e) ↦ ground (arith, h, e, same c e, nat_beq_iff c.ident task.ident)
]

pub on_complete-Inv :
    (env : Env) (task : TransferTask) (g : Governor)
    → Inv g
    → IsObjectOf g task
    → Inv (on_complete env task g).1
unfolding on_complete fire
on_complete-Inv env task g v same = elim (Bool-cases (is_current task g)) [
  | inl e ↦
      rw (e, on_complete)
        (flush_deferred-Inv env task.dst _ (
          same_ledger (drop_task task g) _ refl refl refl refl refl
            (drop_task-Inv task g v (is_current_there task g same e))))
  | inr e ↦ rw (e, on_complete) v
]

count_in-filter :
    (r : String) (p : TransferTask → Bool) (q : List TransferTask)
    → count_in r (filter p q) ≤ count_in r q
unfolding count_in
count_in-filter r p [] = omega arith
count_in-filter r p (t ∷ q) = ground (arith, count_in-filter r p q)

cancel_queues-count :
    (r : String) (p : TransferTask → Bool) (d : Dict String (List TransferTask))
    → sum_by (count_in r) (cancel_queues p d) ≤ sum_by (count_in r) d
unfolding cancel_queues sum_by
cancel_queues-count r p [] = omega arith
cancel_queues-count r p ((dst, q) ∷ d) =
    omega (arith, count_in-filter r (λ t. not (p t)) q, cancel_queues-count r p d)

cancel_queues-lookup :
    (p : TransferTask → Bool) (k : String) (d : Dict String (List TransferTask))
    → lookup k d ≡ none
    → lookup k (cancel_queues p d) ≡ none
unfolding cancel_queues lookup
cancel_queues-lookup p k [] h = h
cancel_queues-lookup p k ((dst, q) ∷ d) h = ground (arith, cancel_queues-lookup p k d)

cancel_queues-Distinct :
    (p : TransferTask → Bool) (d : Dict String (List TransferTask))
    → Distinct d
    → Distinct (cancel_queues p d)
unfolding cancel_queues
cancel_queues-Distinct p [] h = tt
cancel_queues-Distinct p ((dst, q) ∷ d) h =
    (cancel_queues-lookup p dst d h.0, cancel_queues-Distinct p d h.1)

cancelled_queues-Inv :
    (p : TransferTask → Bool) (g : Governor)
    → Inv g
    → Inv (record g { deferred = cancel_queues p g.deferred })
cancelled_queues-Inv p g v = record {
  distinct = v.distinct;
  queues_distinct = cancel_queues-Distinct p g.deferred v.queues_distinct;
  keyed = v.keyed;
  pairs = v.pairs;
  dsts = v.dsts;
  single = λ r. omega (arith, cancel_queues-count r p g.deferred, v.single r);
  capped = v.capped;
}

pub cancel-Inv :
    (req_id : String) (operation_id : Option String) (g : Governor)
    → Inv g
    → Inv (cancel req_id operation_id g).1
unfolding cancel
cancel-Inv req_id operation_id g v = elim (Option-cases (lookup req_id g.inflight_tasks)) [
  | inl e ↦ rw (e, cancel) kept
  | inr (task, e) ↦ elim (Bool-cases (operation_fits operation_id task)) [
    | inl fits ↦
        rw (e, fits, cancel)
          (drop_task-Inv task g' kept
            (subst (λ k. lookup k g.inflight_tasks ≡ some task) (sym (v.keyed req_id task e)) e))
    | inr other ↦ rw (e, other, cancel) kept
  ]
]
  where
    g' : Governor
    g' = record g { deferred = cancel_queues (names_task req_id operation_id) g.deferred }

    kept : Inv g'
    kept = cancelled_queues-Inv (names_task req_id operation_id) g v

tick_from-Inv :
    (env : Env) (dsts : List String) (g : Governor) → Inv g → Inv (tick_from env dsts g).1
unfolding tick_from
tick_from-Inv env [] g v = v
tick_from-Inv env (dst ∷ dsts) g v = ground (
  arith,
  flush_deferred-Inv env dst g v,
  tick_from-Inv env dsts (flush_deferred env dst g).1 (flush_deferred-Inv env dst g v),
)

pub tick-Inv : (env : Env) (g : Governor) → Inv g → Inv (tick env g).1
unfolding tick
tick-Inv env g v = tick_from-Inv env (keys g.deferred) g v

either :
    (b : Bool) (x y : Result (Unit {0}) × Governor) → Inv x.1 → Inv y.1 → Inv (if b then x else y).1
either true x y p q = p
either false x y p q = q

pub update_kv_usage-Inv :
    (env : Env) (instance_id : String) (sample : Option KvUsageSample) (g : Governor)
    → Inv g
    → Inv (update_kv_usage env instance_id sample g).1
unfolding update_kv_usage
update_kv_usage-Inv env instance_id none g v = same_ledger g _ refl refl refl refl refl v
update_kv_usage-Inv env instance_id (some sample) g v =
    let g' = store_sample instance_id sample g in
    let v' : Inv g' = unfold store_sample in same_ledger g _ refl refl refl refl refl v in
    either (flushes env instance_id sample g) (flush_deferred env instance_id g') (ok tt, g')
      (flush_deferred-Inv env instance_id g' v') v'

pub set_expected_epochs-Inv :
    (epochs : Dict String String) (g : Governor) → Inv g → Inv (set_expected_epochs epochs g)
unfolding set_expected_epochs
set_expected_epochs-Inv epochs g v = same_ledger g _ refl refl refl refl refl v

pub on_transfer_failure-Inv :
    (req_id : String) (g : Governor) → Inv g → Inv (on_transfer_failure req_id g).1
unfolding on_transfer_failure
on_transfer_failure-Inv req_id g v =
    elim (Bool-cases (leb g.max_recompute (get_or (lookup req_id g.recompute_counts) 0))) [
      | inl e ↦ rw e (same_ledger g _ refl refl refl refl refl v)
      | inr e ↦ rw e (same_ledger g _ refl refl refl refl refl v)
    ]

pub finish_request-Inv : (req_id : String) (g : Governor) → Inv g → Inv (finish_request req_id g)
unfolding finish_request
finish_request-Inv req_id g v =
    same_ledger (cancel req_id none g).1 _ refl refl refl refl refl (cancel-Inv req_id none g v)
