-- ===== src/Governor/Fifo.antt =====
-- The deferred queues are first in, first out: prism_serve/scheduler/transfer_governor.py,
-- `_flush_deferred`.
use mathlib.Core.List.{append-nil, append_assoc}
use prism_serve.Base.{
  String, ◌≡◌, refl, sym, ap, ◌∙◌, inl, inr, true, false, some, List, [], ◌∷◌, ◌++◌, arith,
  Bool-cases, nat_key, text_key, pair_key, ok, err,
}
use prism_serve.Governor.State.{TransferTask, Env, Governor, queue}
use prism_serve.Governor.Admission.{can_send}
use prism_serve.Governor.Transfers.{
  hold, dispatch_error, set_queue, flush_queue, flush_deferred, drop_task,
}
use prism_serve.Governor.Ledger.{queue-set_queue, dispatch_taken, dispatch_raised}

-- The head of a queue, if there is one, may not be sent now.
abbrev pub IsBlocked : Env → Governor → List TransferTask → Type 0
IsBlocked env g [] = Unit
IsBlocked env g (task ∷ q) =
    can_send env g task.dst task.kv_size task.priority (some task.src) ≡ false

abbrev pub Sends : Env → String → Governor → List TransferTask → Governor → Type 0
Sends env dst g q g' =
    (taken : List TransferTask) × (rest : List TransferTask) × (q ≡ taken ++ rest)
    × (g'.sent ≡ g.sent ++ taken)
    × (queue g' dst ≡ rest)
    × IsBlocked env g' rest

-- The state after the head of a queue has been handed to the client.
abbrev handed : String → List TransferTask → TransferTask → Governor → Governor
handed dst q task g = record (hold task (set_queue dst q g)) {
  sent = (set_queue dst q g).sent ++ task ∷ [];
}

flush_queue_taken :
    (env : Env) (dst : String) (q : List TransferTask) (task : TransferTask) (g : Governor)
    → can_send env g task.dst task.kv_size task.priority (some task.src) ≡ true
    → env.takes task ≡ true
    → flush_queue env dst (task ∷ q) g ≡ flush_queue env dst q (handed dst q task g)
unfolding flush_queue
flush_queue_taken env dst q task g admitted taken =
    ground (arith, dispatch_taken env task (set_queue dst q g) taken)

-- A client that raises ends the loop.
pub flush_queue_raised :
    (env : Env) (dst : String) (q : List TransferTask) (task : TransferTask) (g : Governor)
    → can_send env g task.dst task.kv_size task.priority (some task.src) ≡ true
    → env.takes task ≡ false
    → flush_queue env dst (task ∷ q) g
      ≡ (err dispatch_error, drop_task task (hold task (set_queue dst q g)))
unfolding flush_queue
flush_queue_raised env dst q task g admitted raised =
    ground (arith, dispatch_raised env task (set_queue dst q g) raised)

flush_queue_blocked :
    (env : Env) (dst : String) (q : List TransferTask) (task : TransferTask) (g : Governor)
    → can_send env g task.dst task.kv_size task.priority (some task.src) ≡ false
    → flush_queue env dst (task ∷ q) g ≡ (ok tt, g)
unfolding flush_queue
flush_queue_blocked env dst q task g blocked = rw blocked

queue-handed :
    (dst : String) (q : List TransferTask) (task : TransferTask) (g : Governor)
    → queue (handed dst q task g) dst ≡ q
unfolding hold
queue-handed dst q task g = queue-set_queue dst q g

Sends-handed :
    (env : Env) (dst : String) (q : List TransferTask) (task : TransferTask) (g g' : Governor)
    → Sends env dst (handed dst q task g) q g'
    → Sends env dst g (task ∷ q) g'
unfolding set_queue
Sends-handed env dst q task g g' (taken, rest, split, sent, left, blocked) = (
  task ∷ taken,
  rest,
  ap (◌∷◌ task) split,
  sent ∙ append_assoc g.sent (task ∷ []) taken,
  left,
  blocked,
)

flush_queue-Sends :
    (env : Env) (dst : String) (q : List TransferTask) (g g' : Governor)
    → queue g dst ≡ q
    → flush_queue env dst q g ≡ (ok tt, g')
    → Sends env dst g q g'
flush_queue-Sends env dst [] g g' e h =
    let same : g ≡ g' = unfold flush_queue in ap (λ r. r.1) h in
    ([], [], refl, rw (← same) (sym (append-nil g.sent)), rw (← same) e, tt)
flush_queue-Sends env dst (task ∷ q) g g' e h =
    elim (Bool-cases (can_send env g task.dst task.kv_size task.priority (some task.src))) [
      | inl admitted ↦ elim (Bool-cases (env.takes task)) [
        | inl taken ↦ Sends-handed env dst q task g g' (
            flush_queue-Sends env dst q (handed dst q task g) g' (queue-handed dst q task g)
              (sym (flush_queue_taken env dst q task g admitted taken) ∙ h))
        | inr raised ↦ absurd (cc (flush_queue_raised env dst q task g admitted raised))
      ]
      | inr blocked ↦
          let same : g ≡ g' =
            ap (λ r. r.1) (sym (flush_queue_blocked env dst q task g blocked) ∙ h) in
          (
            [],
            task ∷ q,
            refl,
            rw (← same) (sym (append-nil g.sent)),
            rw (← same) e,
            rw (← same) blocked,
          )
    ]

-- A flush that does not raise hands the client a first part of the queue, in its order, and leaves
-- the rest, whose head may not be sent in the state that is left.
pub flush_deferred-Sends :
    (env : Env) (dst : String) (g g' : Governor)
    → flush_deferred env dst g ≡ (ok tt, g')
    → Sends env dst g (queue g dst) g'
unfolding flush_deferred
flush_deferred-Sends env dst g g' h = flush_queue-Sends env dst (queue g dst) g g' refl h
