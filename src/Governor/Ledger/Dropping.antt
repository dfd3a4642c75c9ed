-- ===== src/Governor/Ledger/Dropping.antt =====
-- Taking a task off the ledger keeps the invariant.
use prism_serve.Base.{
  ◌+◌, ◌-◌, String, ◌≡◌, refl, ap, inl, inr, false, some, arith, Bool-cases, ◌==◌, nat_key,
  text_key, pair_key, str_eq_iff,
}
use prism_serve.Base.Dict.{
  lookup, lookup-insert, lookup-erase, sum_by, erase-Distinct, sum_by-erase, sum_by_ge,
}
use prism_serve.Governor.State.{TransferTask, Governor, pair_id, pair_bytes, dst_bytes}
use prism_serve.Governor.Transfers.{drop_task}
use prism_serve.Governor.Ledger.Holding.{Inv, IsCapped, is_for, pair_weight, dst_weight}

module _ (task : TransferTask) (g : Governor) (v : Inv g)
    (there : lookup task.req_id g.inflight_tasks ≡ some task) where
  drop_task-pairs :
      (p : String)
      → pair_bytes (drop_task task g) p ≡ sum_by (pair_weight p) (drop_task task g).inflight_tasks
  unfolding drop_task
  drop_task-pairs p = ground (
    arith,
    lookup-insert p (pair_id task.src task.dst)
        (pair_bytes g (pair_id task.src task.dst) - task.kv_size) g.pair_bytes_inflight,
    sum_by-erase (pair_weight p) task.req_id task g.inflight_tasks v.distinct there,
    v.pairs p,
    str_eq_iff p (pair_id task.src task.dst),
    str_eq_iff (pair_id task.src task.dst) p,
  )

  drop_task-dsts :
      (d : String)
      → dst_bytes (drop_task task g) d ≡ sum_by (dst_weight d) (drop_task task g).inflight_tasks
  unfolding drop_task
  drop_task-dsts d = ground (
    arith,
    lookup-insert d task.dst (dst_bytes g task.dst - task.kv_size) g.bytes_inflight,
    sum_by-erase (dst_weight d) task.req_id task g.inflight_tasks v.distinct there,
    v.dsts d,
    str_eq_iff d task.dst,
    str_eq_iff task.dst d,
  )

  drop_task-sum :
      (p : String)
      → sum_by (pair_weight p) (drop_task task g).inflight_tasks + pair_weight p task
        ≡ sum_by (pair_weight p) g.inflight_tasks
  unfolding drop_task
  drop_task-sum p = sum_by-erase (pair_weight p) task.req_id task g.inflight_tasks v.distinct there

  drop_task-max : (drop_task task g).max_bytes ≡ g.max_bytes
  unfolding drop_task
  drop_task-max = refl

  drop_task_there_other :
      (t : TransferTask)
      → (t.req_id == task.req_id) ≡ false
      → lookup t.req_id g.inflight_tasks ≡ some t
      → lookup t.req_id (drop_task task g).inflight_tasks ≡ some t
  unfolding drop_task
  drop_task_there_other t other e = simp (lookup-erase, other, e)

  drop_task-IsCapped : (p : String) → IsCapped p (drop_task task g)
  drop_task-IsCapped p = elim (v.capped p) [
    | inl room ↦ inl (omega (arith, drop_task-pairs p, drop_task-sum p, drop_task-max, v.pairs p))
    | inr (t, e, w) ↦ elim (Bool-cases (t.req_id == task.req_id)) [
      | inl same ↦ inl (
          ground (
            arith,
            drop_task-pairs p,
            drop_task-sum p,
            w,
            e,
            there,
            ap (λ k. lookup k g.inflight_tasks) ((str_eq_iff t.req_id task.req_id).0 same),
          ))
      | inr other ↦ inr (
        t,
        drop_task_there_other t other e,
        omega (
          arith,
          drop_task-sum p,
          w,
          sum_by_ge (pair_weight p) t.req_id t (drop_task task g).inflight_tasks
              (drop_task_there_other t other e),
        ),
      )
    ]
  ]

  pub drop_task-Inv : Inv (drop_task task g)
  unfolding drop_task
  drop_task-Inv = record {
    distinct = erase-Distinct task.req_id g.inflight_tasks v.distinct;
    queues_distinct = v.queues_distinct;
    keyed = λ r t h. ground (arith, lookup-erase r task.req_id g.inflight_tasks, v.keyed r t);
    pairs = drop_task-pairs;
    dsts = drop_task-dsts;
    single = λ r. omega (
      arith,
      sum_by-erase (is_for r) task.req_id task g.inflight_tasks v.distinct there,
      v.single r,
    );
    capped = drop_task-IsCapped;
  }
