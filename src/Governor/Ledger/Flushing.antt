-- ===== src/Governor/Ledger/Flushing.antt =====
-- Dispatch and the deferred queues keep the invariant.
use prism_serve.Base.{
  ◌+◌, String, ◌≡◌, refl, ◌∙◌, inl, inr, true, false, some, List, [], ◌∷◌, ◌++◌, arith, nat_beq_iff,
  Bool-cases, Option-cases, nat_key, text_key, pair_key, str_eq_refl, str_eq_iff, ok, err,
}
use prism_serve.Base.Dict.{lookup, lookup-insert, insert-Distinct, sum_by-insert_old}
use prism_serve.Governor.State.{TransferTask, Env, Governor, queue, pair_id, pair_bytes}
use prism_serve.Governor.Admission.{can_send, fits, cap, sample_is_fresh, is_congested}
use prism_serve.Governor.Transfers.{
  hold, drop_task, dispatch, dispatch_error, is_current, set_queue, flush_queue,
}
use prism_serve.Governor.Ledger.Dropping.{drop_task-Inv}
use prism_serve.Governor.Ledger.Holding.{Inv, count_in, is_for, held_count, hold-Inv, hold_there}

pub dispatch_taken :
    (env : Env) (task : TransferTask) (g : Governor)
    → env.takes task ≡ true
    → dispatch env task g ≡ (ok tt, record (hold task g) { sent = g.sent ++ task ∷ [] })
unfolding dispatch hold
dispatch_taken env task g e = rw e

is_current-hold : (task : TransferTask) (g : Governor) → is_current task (hold task g) ≡ true
unfolding is_current
is_current-hold task g = ground (arith, hold_there task g, nat_beq_iff task.ident task.ident)

-- A client that raises leaves the ledger rolled back.
pub dispatch_raised :
    (env : Env) (task : TransferTask) (g : Governor)
    → env.takes task ≡ false
    → dispatch env task g ≡ (err dispatch_error, drop_task task (hold task g))
unfolding dispatch
dispatch_raised env task g e = rw (e, is_current-hold task g)

sent-Inv : (h : Governor) (ts : List TransferTask) → Inv h → Inv (record h { sent = ts })
sent-Inv h ts w = record {
  distinct = w.distinct;
  queues_distinct = w.queues_distinct;
  keyed = w.keyed;
  pairs = w.pairs;
  dsts = w.dsts;
  single = w.single;
  capped = w.capped;
}

-- An admitted task fits under the cap of its pair.
pub can_send-fits :
    (env : Env) (task : TransferTask) (g : Governor)
    → can_send env g task.dst task.kv_size task.priority (some task.src) ≡ true
    → fits (pair_bytes g (pair_id task.src task.dst)) task.kv_size (cap g task.priority) ≡ true
unfolding can_send
can_send-fits env task g h = ground arith

-- Admission does not read the queues.
pub can_send-set_queue :
    (env : Env) (dst : String) (q : List TransferTask) (task : TransferTask) (g : Governor)
    → can_send env (set_queue dst q g) task.dst task.kv_size task.priority (some task.src)
      ≡ can_send env g task.dst task.kv_size task.priority (some task.src)
unfolding can_send set_queue sample_is_fresh is_congested cap
can_send-set_queue env dst q task g = refl

-- A dispatch keeps the invariant, whether the client takes the task or raises.
pub dispatch-Inv :
    (env : Env) (task : TransferTask) (g : Governor)
    → Inv g
    → held_count task.req_id g ≡ 0
    → can_send env g task.dst task.kv_size task.priority (some task.src) ≡ true
    → Inv (dispatch env task g).1
dispatch-Inv env task g v fresh admitted = elim (Bool-cases (env.takes task)) [
  | inl taken ↦
      rw (dispatch_taken env task g taken)
        (sent-Inv (hold task g) _ (hold-Inv task g v fresh (can_send-fits env task g admitted)))
  | inr raised ↦ rw (dispatch_raised env task g raised) (
      drop_task-Inv task (hold task g) (hold-Inv task g v fresh (can_send-fits env task g admitted))
        (hold_there task g))
]

pub dispatch-deferred :
    (env : Env) (task : TransferTask) (g : Governor) → (dispatch env task g).1.deferred ≡ g.deferred
unfolding dispatch hold drop_task
dispatch-deferred env task g = ground arith

module _ (dst : String) (task : TransferTask) (q : List TransferTask) (g : Governor)
    (front : queue g dst ≡ task ∷ q) where
  pub front_there : lookup dst g.deferred ≡ some (task ∷ q)
  front_there = elim (Option-cases (lookup dst g.deferred)) [
    | inl e ↦ absurd (ground (arith, front))
    | inr (r, e) ↦ ground (arith, front)
  ]

  set_queue-held : (r : String) → held_count r (set_queue dst q g) + is_for r task ≡ held_count r g
  unfolding set_queue count_in
  set_queue-held r =
      omega (arith, sum_by-insert_old (count_in r) dst q (task ∷ q) g.deferred front_there)

  -- Taking the front task off its queue keeps the invariant, and nothing of its request is left.
  pub set_queue-Inv : Inv g → Inv (set_queue dst q g)
  unfolding set_queue
  set_queue-Inv v = record {
    distinct = v.distinct;
    queues_distinct = insert-Distinct dst q g.deferred v.queues_distinct;
    keyed = v.keyed;
    pairs = v.pairs;
    dsts = v.dsts;
    single = λ r. omega (arith, set_queue-held r, v.single r);
    capped = v.capped;
  }

  pub set_queue_fresh : Inv g → held_count task.req_id (set_queue dst q g) ≡ 0
  set_queue_fresh v =
      ground (
        arith,
        set_queue-held task.req_id,
        v.single task.req_id,
        str_eq_iff task.req_id task.req_id,
      )

pub queue-set_queue :
    (dst : String) (q : List TransferTask) (g : Governor) → queue (set_queue dst q g) dst ≡ q
unfolding set_queue
queue-set_queue dst q g = simp (lookup-insert, str_eq_refl)

pub flush_queue-Inv :
    (env : Env) (dst : String) (q : List TransferTask) (g : Governor)
    → queue g dst ≡ q
    → Inv g
    → Inv (flush_queue env dst q g).1
unfolding flush_queue
flush_queue-Inv env dst [] g e v = v
flush_queue-Inv env dst (task ∷ q) g e v =
    elim (Bool-cases (can_send env g task.dst task.kv_size task.priority (some task.src))) [
      | inl admitted ↦
          rw (admitted, flush_queue)
            (let v' : Inv (dispatch env task g').1 =
                dispatch-Inv env task g' (set_queue-Inv dst task q g e v)
                  (set_queue_fresh dst task q g e v)
                  (can_send-set_queue env dst q task g ∙ admitted) in
              ground (arith, flush_queue-Inv env dst q (dispatch env task g').1 e' v'))
      | inr blocked ↦ rw (blocked, flush_queue) v
    ]
  where
    g' : Governor
    g' = set_queue dst q g

    e' : queue (dispatch env task g').1 dst ≡ q
    e' = rw (dispatch-deferred env task g') (queue-set_queue dst q g)
