-- ===== src/Governor/Ledger/Holding.antt =====
-- The invariant, and the two updates of the ledger: `hold` and `drop_task`.
use prism_serve.Base.{
  ℕ, ◌+◌, ◌≤◌, String, ◌≡◌, refl, ap, ◌⊎◌, inl, inr, Bool, true, none, some, List, [], ◌∷◌, arith,
  if◌then◌else◌, Bool-cases, Option-cases, ◌==◌, nat_key, text_key, pair_key, str_eq_iff,
}
use prism_serve.Base.Dict.{
  lookup, lookup-insert, Distinct, sum_by, insert-Distinct, sum_by-insert_new, sum_by_ge,
}
use prism_serve.Governor.State.{
  TransferTask, Config, Governor, init, pair_id, pair_bytes, dst_bytes,
}
use prism_serve.Governor.Admission.{fits, cap}
use prism_serve.Governor.Transfers.{hold}

abbrev pub pair_weight : String → TransferTask → ℕ
pair_weight pair t = if pair_id t.src t.dst == pair then t.kv_size else 0

abbrev pub dst_weight : String → TransferTask → ℕ
dst_weight dst t = if t.dst == dst then t.kv_size else 0

abbrev pub is_for : String → TransferTask → ℕ
is_for r t = if t.req_id == r then 1 else 0

unfoldable pub count_in : String → List TransferTask → ℕ
count_in r [] = 0
count_in r (t ∷ q) = is_for r t + count_in r q

-- How many transfers of a request the governor holds, in flight and deferred.
abbrev pub held_count : String → Governor → ℕ
held_count r g = sum_by (is_for r) g.inflight_tasks + sum_by (count_in r) g.deferred

-- The bytes of a pair are within the cap, or they are those of a single task.
abbrev pub IsCapped : String → Governor → Type 0
IsCapped p g =
    (pair_bytes g p ≤ g.max_bytes)
    ⊎ ((t : TransferTask) × (lookup t.req_id g.inflight_tasks ≡ some t)
        × (pair_weight p t ≡ sum_by (pair_weight p) g.inflight_tasks))

pub record Inv (g : Governor) : Type 0 where
  pub distinct : Distinct g.inflight_tasks
  pub queues_distinct : Distinct g.deferred
  pub keyed : (r : String) (t : TransferTask) → lookup r g.inflight_tasks ≡ some t → t.req_id ≡ r
  pub pairs : (p : String) → pair_bytes g p ≡ sum_by (pair_weight p) g.inflight_tasks
  pub dsts : (d : String) → dst_bytes g d ≡ sum_by (dst_weight d) g.inflight_tasks
  pub single : (r : String) → held_count r g ≤ 1
  pub capped : (p : String) → IsCapped p g

pub init-Inv : (c : Config) → Inv (init c)
unfolding init lookup sum_by
init-Inv c = record {
  distinct = tt;
  queues_distinct = tt;
  keyed = λ r t h. cc;
  pairs = λ p. refl;
  dsts = λ d. refl;
  single = λ r. omega arith;
  capped = λ p. inl (omega arith);
}

fits_cases : (c n l : ℕ) → fits c n l ≡ true → (c + n ≤ l) ⊎ (c ≡ 0)
unfolding fits
fits_cases c n l h = ground arith

cap-le : (g : Governor) (priority : ℕ) → cap g priority ≤ g.max_bytes
unfolding cap
cap-le g priority = ground arith

module _ (g : Governor) (v : Inv g) where
  -- A request that is not held has nothing in flight.
  pub not_inflight :
      (r : String) → sum_by (is_for r) g.inflight_tasks ≡ 0 → lookup r g.inflight_tasks ≡ none
  not_inflight r h = elim (Option-cases (lookup r g.inflight_tasks)) [
    | inl e ↦ e
    | inr (t, e) ↦ absurd (
        grind (
          arith,
          sum_by_ge (is_for r) r t g.inflight_tasks e,
          v.keyed r t e,
          str_eq_iff t.req_id r,
        ))
  ]

pub hold_there :
    (task : TransferTask) (g : Governor)
    → lookup task.req_id (hold task g).inflight_tasks ≡ some task
unfolding hold
hold_there task g = ground (
  arith,
  lookup-insert task.req_id task.req_id task g.inflight_tasks,
  str_eq_iff task.req_id task.req_id,
)

module _ (task : TransferTask) (g : Governor) (v : Inv g)
    (fresh : held_count task.req_id g ≡ 0) where
  absent : lookup task.req_id g.inflight_tasks ≡ none
  absent = not_inflight g v task.req_id (omega arith)

  hold-keyed :
      (r : String) (t : TransferTask)
      → lookup r (hold task g).inflight_tasks ≡ some t
      → t.req_id ≡ r
  unfolding hold
  hold-keyed r t h = ground (
    arith,
    lookup-insert r task.req_id task g.inflight_tasks,
    v.keyed r t,
    str_eq_iff r task.req_id,
  )

  hold-pairs :
      (p : String)
      → pair_bytes (hold task g) p ≡ sum_by (pair_weight p) (hold task g).inflight_tasks
  unfolding hold
  hold-pairs p = ground (
    arith,
    lookup-insert p (pair_id task.src task.dst)
        (pair_bytes g (pair_id task.src task.dst) + task.kv_size) g.pair_bytes_inflight,
    sum_by-insert_new (pair_weight p) task.req_id task g.inflight_tasks absent,
    v.pairs p,
    str_eq_iff p (pair_id task.src task.dst),
    str_eq_iff (pair_id task.src task.dst) p,
  )

  hold-dsts :
      (d : String) → dst_bytes (hold task g) d ≡ sum_by (dst_weight d) (hold task g).inflight_tasks
  unfolding hold
  hold-dsts d = ground (
    arith,
    lookup-insert d task.dst (dst_bytes g task.dst + task.kv_size) g.bytes_inflight,
    sum_by-insert_new (dst_weight d) task.req_id task g.inflight_tasks absent,
    v.dsts d,
    str_eq_iff d task.dst,
    str_eq_iff task.dst d,
  )

  pub hold-single : (r : String) → held_count r (hold task g) ≤ 1
  unfolding hold
  hold-single r = ground (
    arith,
    sum_by-insert_new (is_for r) task.req_id task g.inflight_tasks absent,
    v.single r,
    str_eq_iff task.req_id r,
  )

  hold_there_other :
      (t : TransferTask)
      → lookup t.req_id g.inflight_tasks ≡ some t
      → lookup t.req_id (hold task g).inflight_tasks ≡ some t
  unfolding hold
  hold_there_other t h = ground (
    arith,
    lookup-insert t.req_id task.req_id task g.inflight_tasks,
    absent,
    ap (λ k. lookup k g.inflight_tasks) {x = t.req_id} {y = task.req_id},
    str_eq_iff t.req_id task.req_id,
  )

  hold-sum :
      (p : String)
      → sum_by (pair_weight p) (hold task g).inflight_tasks
        ≡ sum_by (pair_weight p) g.inflight_tasks + pair_weight p task
  unfolding hold
  hold-sum p = sum_by-insert_new (pair_weight p) task.req_id task g.inflight_tasks absent

  hold-max : (hold task g).max_bytes ≡ g.max_bytes
  unfolding hold
  hold-max = refl

  hold-IsCapped :
      fits (pair_bytes g (pair_id task.src task.dst)) task.kv_size (cap g task.priority) ≡ true
      → (p : String) → IsCapped p (hold task g)
  hold-IsCapped h p = elim (Bool-cases (pair_id task.src task.dst == p)) [
    | inl same ↦ elim (fits_cases _ task.kv_size _ h) [
      | inl room ↦ inl (
          omega (
            arith,
            hold-pairs p,
            hold-sum p,
            hold-max,
            v.pairs p,
            cap-le g task.priority,
            ap (pair_bytes g) ((str_eq_iff _ p).0 same),
            ap (λ (b : Bool). if b then task.kv_size else 0) same,
          ))
      | inr empty ↦ inr (
        task,
        hold_there task g,
        omega (arith, hold-sum p, v.pairs p, ap (pair_bytes g) ((str_eq_iff _ p).0 same), empty),
      )
    ]
    | inr other ↦ elim (v.capped p) [
      | inl room ↦ inl (
          omega (
            arith,
            hold-pairs p,
            hold-sum p,
            hold-max,
            v.pairs p,
            ap (λ (b : Bool). if b then task.kv_size else 0) other,
          ))
      | inr (t, e, w) ↦ inr (
        t,
        hold_there_other t e,
        omega (arith, hold-sum p, w, ap (λ (b : Bool). if b then task.kv_size else 0) other),
      )
    ]
  ]

  pub hold-Inv :
      fits (pair_bytes g (pair_id task.src task.dst)) task.kv_size (cap g task.priority) ≡ true
      → Inv (hold task g)
  unfolding hold
  hold-Inv h = record {
    distinct = insert-Distinct task.req_id task g.inflight_tasks v.distinct;
    queues_distinct = v.queues_distinct;
    keyed = hold-keyed;
    pairs = hold-pairs;
    dsts = hold-dsts;
    single = hold-single;
    capped = hold-IsCapped h;
  }
