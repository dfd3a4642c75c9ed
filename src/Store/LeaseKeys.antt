-- ===== src/Store/LeaseKeys.antt =====
-- The leases that the records of a batch decide on: prism_serve/scheduler/replacement_store.py.
use prism_serve.Base.{
  String, ◌≡◌, sym, subst, inl, inr, true, false, none, some, List, [], ◌∷◌, arith, Bool-cases,
  Option-cases, is_some, Key, ◌==◌, nat_key, text_key, pair_key, triple_key, triple_beq_iff,
  pair_beq_iff, All, All-append, All-map,
}
use prism_serve.Base.Dict.{Dict, values, lookup, insert, lookup-insert}
use prism_serve.Store.Records.{ReplacementReleaseRecord, RecordKey, key_of, lease_of}
use prism_serve.Store.Durable.{Table}
use prism_serve.Store.Decisions.{leases_from, taken}
use prism_serve.Store.Loadable.{keyed, insert_new}
use prism_serve.Store.Tables.{values-append}

abbrev pub LeaseTable : Type 0
LeaseTable = Dict (String × String) RecordKey

-- The leases of the records of a table, each with a key of the table.
pub record IsLeases (ls : LeaseTable) (t : Table) : Type 0 where
  pub covers : All (λ o. is_some (lookup (lease_of o) ls) ≡ true) (values t)
  pub sourced :
      (l : String × String) (k : RecordKey) → lookup l ls ≡ some k → is_some (lookup k t) ≡ true

known_after {ℓ κ} :
    {K : Type ℓ} {V : Type κ} ⦃key : Key K⦄ (j k : K) (v : V) (d : Dict K V)
    → is_some (lookup j d) ≡ true
    → is_some (lookup j (insert k v d)) ≡ true
known_after j k v d h = ground (arith, h, lookup-insert j k v d)

known_new {ℓ κ} :
    {K : Type ℓ} {V : Type κ} ⦃key : Key K⦄ (k : K) (v : V) (d : Dict K V)
    → is_some (lookup k (insert k v d)) ≡ true
known_new ⦃key⦄ k v d = ground (arith, lookup-insert k k v d, key.eqb_iff k k)

leases_from-keeps :
    (rs : List ReplacementReleaseRecord) (ls : LeaseTable) (l : String × String)
    → is_some (lookup l ls) ≡ true
    → is_some (lookup l (leases_from rs ls)) ≡ true
unfolding leases_from
leases_from-keeps [] ls l h = h
leases_from-keeps (r ∷ rs) ls l h =
    leases_from-keeps rs (insert (lease_of r) (key_of r) ls) l
      (known_after l (lease_of r) (key_of r) ls h)

leases_from-covers :
    (rs : List ReplacementReleaseRecord) (ls : LeaseTable)
    → All (λ o. is_some (lookup (lease_of o) (leases_from rs ls)) ≡ true) rs
unfolding leases_from
leases_from-covers [] ls = tt
leases_from-covers (r ∷ rs) ls = (
  leases_from-keeps rs (insert (lease_of r) (key_of r) ls) (lease_of r)
      (known_new (lease_of r) (key_of r) ls),
  leases_from-covers rs (insert (lease_of r) (key_of r) ls),
)

module _ (P : RecordKey → Type 0) where
  abbrev Sourced : LeaseTable → Type 0
  Sourced ls = (l : String × String) (k : RecordKey) → lookup l ls ≡ some k → P k

  insert-Sourced :
      (m : String × String) (j : RecordKey) (ls : LeaseTable)
      → P j
      → Sourced ls
      → Sourced (insert m j ls)
  insert-Sourced m j ls p h l k e = elim (Bool-cases (l == m)) [
    | inl same ↦ subst P (ground (arith, e, same, lookup-insert l m j ls)) p
    | inr other ↦ h l k (ground (arith, e, other, lookup-insert l m j ls))
  ]

  leases_from-Sourced :
      (rs : List ReplacementReleaseRecord) (ls : LeaseTable)
      → All (λ r. P (key_of r)) rs
      → Sourced ls
      → Sourced (leases_from rs ls)
  unfolding leases_from
  leases_from-Sourced [] ls p h = h
  leases_from-Sourced (r ∷ rs) ls p h =
      leases_from-Sourced rs (insert (lease_of r) (key_of r) ls) p.1
        (insert-Sourced (lease_of r) (key_of r) ls p.0 h)

-- The key of each record of a table is found in it.
keys_known :
    (t : Table)
    → All (λ e. e.0 ≡ key_of e.1) t
    → All (λ r. is_some (lookup (key_of r) t) ≡ true) (values t)
unfolding lookup
keys_known [] n = tt
keys_known ((k, r) ∷ t) n = (
  ground (arith, n.0, triple_beq_iff (key_of r) k),
  All-map _ _ (λ x h. ground (arith, h)) (values t) (keys_known t n.1),
)

pub leases_from-IsLeases :
    (t : Table) → All (λ e. e.0 ≡ key_of e.1) t → IsLeases (leases_from (values t) []) t
unfolding lookup
leases_from-IsLeases t n = record {
  covers = leases_from-covers (values t) [];
  sourced =
      leases_from-Sourced (λ k. is_some (lookup k t) ≡ true) (values t) [] (keys_known t n)
        (λ l k e. absurd (ground (arith, e)));
}

-- A record whose key is free and whose lease is not taken is alone on its lease.
pub taken-alone :
    (r : ReplacementReleaseRecord) (ls : LeaseTable) (t : Table)
    → IsLeases ls t
    → lookup (key_of r) t ≡ none
    → taken (lookup (lease_of r) ls) (key_of r) ≡ false
    → All (λ o. (lease_of o == lease_of r) ≡ false) (values t)
taken-alone r ls t g f e = elim (Option-cases (lookup (lease_of r) ls)) [
  | inl free ↦
      All-map _ _ (λ o h. ground (arith, h, free, pair_beq_iff (lease_of o) (lease_of r)))
        (values t) g.covers
  | inr (k, there) ↦
      absurd
        (ground (arith, f, e, there, g.sourced (lease_of r) k there, triple_beq_iff k (key_of r)))
]

pub insert-IsLeases :
    (r : ReplacementReleaseRecord) (ls : LeaseTable) (t : Table)
    → IsLeases ls t
    → lookup (key_of r) t ≡ none
    → IsLeases (insert (lease_of r) (key_of r) ls) (insert (key_of r) r t)
insert-IsLeases r ls t g f = record {
  covers =
      subst
        (λ u.
          All (λ o. is_some (lookup (lease_of o) (insert (lease_of r) (key_of r) ls)) ≡ true)
            (values u))
        (sym (insert_new (key_of r) r t f))
        (subst (All _) (sym (values-append t (keyed r ∷ []))) (
          All-append _ (values t) (r ∷ [])
            (All-map _ _ (λ o h. known_after (lease_of o) (lease_of r) (key_of r) ls h) (values t)
              g.covers)
            (known_new (lease_of r) (key_of r) ls, tt)));
  sourced =
      insert-Sourced (λ k. is_some (lookup k (insert (key_of r) r t)) ≡ true) (lease_of r)
        (key_of r) ls (known_new (key_of r) r t)
        (λ l k e. known_after k (key_of r) r t (g.sourced l k e));
}
