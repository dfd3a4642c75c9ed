-- ===== src/Prefix/Entries.antt =====
-- Entries of the index, written and read back: prism_serve/router/prefix_index.py.
use prism_serve.Base.{
  ◌≡◌, refl, ap, subst, ◌⊎◌, inl, inr, Bool, true, false, none, some, List, [], ◌∷◌, arith,
  if◌then◌else◌, Bool-cases, get_or, Key, ◌==◌, nat_key, text_key, pair_key, triple_key,
  pair_beq_iff, any, Among,
}
use prism_serve.Base.Dict.{Dict, lookup, insert, erase, lookup-insert, lookup-erase}
use prism_serve.Prefix.Index.{IndexKey, Owner, CacheLocation, set_add, set_or_pop, is_owned}

-- The two entries that an update writes, read back.
module _ {ℓ} {K : Type ℓ} {A : Type 0} ⦃key : Key K⦄ where
  pub read_same :
      (j k : K) (xs : List A) (d : Dict K (List A))
      → (j == k) ≡ true
      → get_or (lookup j (insert k xs d)) [] ≡ xs
  read_same j k xs d h = ground (arith, lookup-insert j k xs d)

  pub read_other :
      (j k : K) (xs : List A) (d : Dict K (List A))
      → (j == k) ≡ false
      → get_or (lookup j (insert k xs d)) [] ≡ get_or (lookup j d) []
  read_other j k xs d h = ground (arith, lookup-insert j k xs d)

module _ {ℓ} {K : Type ℓ} {A : Type 0} ⦃key : Key K⦄ where
  pub look_same :
      (j k : K) (x : A) (d : Dict K A) → (j == k) ≡ true → lookup j (insert k x d) ≡ some x
  look_same j k x d h = ground (arith, lookup-insert j k x d)

  pub look_other :
      (j k : K) (x : A) (d : Dict K A) → (j == k) ≡ false → lookup j (insert k x d) ≡ lookup j d
  look_other j k x d h = ground (arith, lookup-insert j k x d)

  pub gone : (j k : K) (d : Dict K A) → (j == k) ≡ true → lookup j (erase k d) ≡ none
  gone j k d h = ground (arith, lookup-erase j k d)

  pub left : (j k : K) (d : Dict K A) → (j == k) ≡ false → lookup j (erase k d) ≡ lookup j d
  left j k d h = ground (arith, lookup-erase j k d)

pub Among-set_add :
    {A : Type 0} (same : A → A → Bool) (x y : A) (xs : List A)
    → Among x (set_add same y xs)
    → (x ≡ y) ⊎ Among x xs
unfolding set_add
Among-set_add same x y xs m = elim (Bool-cases (any (same y) xs)) [
  | inl old ↦ inr (subst (λ (b : Bool). Among x (if b then xs else y ∷ xs)) old m)
  | inr fresh ↦ subst (λ (b : Bool). Among x (if b then xs else y ∷ xs)) fresh m
]

pub set_add-Among :
    {A : Type 0} (same : A → A → Bool) (x y : A) (xs : List A)
    → Among x xs
    → Among x (set_add same y xs)
unfolding set_add
set_add-Among same x y xs m = elim (Bool-cases (any (same y) xs)) [
  | inl old ↦ rw old m
  | inr fresh ↦ rw fresh (inr m)
]

any-Among : (k : IndexKey) (ks : List IndexKey) → any (λ j. k == j) ks ≡ true → Among k ks
any-Among k [] h = cc
any-Among k (j ∷ ks) h = elim (Bool-cases (k == j)) [
  | inl same ↦ inl ((pair_beq_iff k j).0 same)
  | inr other ↦ inr (any-Among k ks (ground (arith, h, other)))
]

pub added_key : (k : IndexKey) (ks : List IndexKey) → Among k (set_add (λ i j. i == j) k ks)
unfolding set_add
added_key k ks = elim (Bool-cases (any (λ j. k == j) ks)) [
  | inl old ↦ rw old (any-Among k ks old)
  | inr fresh ↦ rw fresh (inl refl)
]

-- The entry that is left of a key where some locations are removed.
pub set_or_pop_locations :
    (j k : IndexKey) (ls : List CacheLocation) (index : Dict IndexKey (List CacheLocation))
    → get_or (lookup j (set_or_pop k ls index)) []
      ≡ (if j == k then ls else get_or (lookup j index) [])
unfolding set_or_pop
set_or_pop_locations j k [] index = ground (arith, lookup-erase j k index)
set_or_pop_locations j k (l ∷ ls) index = ground (arith, lookup-insert j k (l ∷ ls) index)

pub owned_left :
    (o : Owner) (l : CacheLocation) (ls : List CacheLocation)
    → Among l ls
    → is_owned o l ≡ true
    → any (is_owned o) ls ≡ true
owned_left o l [] n h = absurd n
owned_left o l (x ∷ ls) (inl e) h = ground (arith, ap (is_owned o) e, h)
owned_left o l (x ∷ ls) (inr n) h = ground (arith, owned_left o l ls n h)
