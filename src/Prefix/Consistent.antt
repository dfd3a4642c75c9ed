-- ===== src/Prefix/Consistent.antt =====
-- The invariant of the index and the updates that keep it: prism_serve/router/prefix_index.py.
use prism_serve.Base.{
  ◌≡◌, refl, sym, ap, subst, ◌∙◌, ◌⊎◌, inl, inr, some, List, [], ◌∷◌, arith, Bool-cases, get_or,
  ◌==◌, nat_key, text_key, pair_key, triple_key, pair_beq_iff, Among,
}
use prism_serve.Base.Dict.{lookup}
use prism_serve.Prefix.Index.{
  IndexKey, Owner, CacheLocation, PrefixIndex, key_of, owner_of, same_location, set_add,
  locations_at, keys_of, add_location,
}
use prism_serve.Prefix.Entries.{
  read_same, read_other, look_same, look_other, Among-set_add, set_add-Among, added_key,
}
use prism_serve.Prefix.Backed.{IsBacked, add_location-IsBacked}

-- A location stands under its key, its owner's entry lists that key, and no key has an empty entry, as
-- `assert_consistent` asserts; and a key that an owner lists has a location of that owner.
pub record Consistent (p : PrefixIndex) : Type 0 where
  pub keyed : (k : IndexKey) (l : CacheLocation) → Among l (locations_at k p) → key_of l ≡ k
  pub listed :
      (k : IndexKey) (l : CacheLocation)
      → Among l (locations_at k p)
      → Among k (keys_of (owner_of l) p)
  pub filled : (k : IndexKey) → lookup k p.index ≡ some [] → ⊥
  pub backed : IsBacked p

module _ (m : CacheLocation) (p : PrefixIndex) where
  added_location :
      (k : IndexKey) (l : CacheLocation)
      → Among l (locations_at k (add_location m p))
      → ((l ≡ m) × (k ≡ key_of m)) ⊎ Among l (locations_at k p)
  unfolding add_location
  added_location k l n = elim (Bool-cases (k == key_of m)) [
    | inr other ↦ inr (subst (Among l) (read_other k (key_of m) _ p.index other) n)
    | inl same ↦
        let k_is = (pair_beq_iff k (key_of m)).0 same in
        elim (Among-set_add same_location l m (locations_at (key_of m) p)
          (subst (Among l) (read_same k (key_of m) _ p.index same) n)) [
            | inl e ↦ inl (e, k_is)
            | inr old ↦ inr (subst (λ j. Among l (locations_at j p)) (sym k_is) old)
          ]
  ]

  kept_key :
      (o : Owner) (k : IndexKey) → Among k (keys_of o p) → Among k (keys_of o (add_location m p))
  unfolding add_location
  kept_key o k n = elim (Bool-cases (o == owner_of m)) [
    | inr other ↦ subst (Among k) (sym (read_other o (owner_of m) _ p.forward other)) n
    | inl same ↦ subst (Among k) (sym (read_same o (owner_of m) _ p.forward same)) (
        set_add-Among (λ i j. i == j) k (key_of m) (keys_of (owner_of m) p)
          (subst (λ x. Among k (keys_of x p)) ((pair_beq_iff o (owner_of m)).0 same) n))
  ]

  new_key : Among (key_of m) (keys_of (owner_of m) (add_location m p))
  unfolding add_location
  new_key =
      subst (Among (key_of m))
        (sym (
          read_same (owner_of m) (owner_of m) _ p.forward
            ((pair_beq_iff (owner_of m) (owner_of m)).1 refl)))
        (added_key (key_of m) (keys_of (owner_of m) p))

  set_add_filled : (xs : List CacheLocation) → set_add same_location m xs ≡ [] → ⊥
  unfolding set_add
  set_add_filled [] h = cc
  set_add_filled (x ∷ xs) h = ground (arith, h)

  added_filled :
      (k : IndexKey)
      → (lookup k p.index ≡ some [] → ⊥)
      → lookup k (add_location m p).index ≡ some []
      → ⊥
  unfolding add_location
  added_filled k old h = elim (Bool-cases (k == key_of m)) [
    | inl same ↦
        set_add_filled (locations_at (key_of m) p)
          (ap (λ o. get_or o []) (sym (look_same k (key_of m) _ p.index same) ∙ h))
    | inr other ↦ old (sym (look_other k (key_of m) _ p.index other) ∙ h)
  ]

  pub add_location-Consistent : Consistent p → Consistent (add_location m p)
  add_location-Consistent v = record {
    keyed = λ k l n. elim (added_location k l n) [
      | inl (e, f) ↦ ap key_of e ∙ sym f
      | inr old ↦ v.keyed k l old
    ];
    listed = λ k l n. elim (added_location k l n) [
      | inl (e, f) ↦
          subst (λ j. Among j (keys_of (owner_of l) (add_location m p))) (sym f)
            (subst (λ x. Among (key_of m) (keys_of (owner_of x) (add_location m p))) (sym e)
              new_key)
      | inr old ↦ kept_key (owner_of l) k (v.listed k l old)
    ];
    filled = λ k. added_filled k (v.filled k);
    backed = add_location-IsBacked m p v.backed;
  }
