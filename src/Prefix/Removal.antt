-- ===== src/Prefix/Removal.antt =====
-- Removals keep the invariant of the index: prism_serve/router/prefix_index.py.
use prism_serve.Base.{
  ℕ, ◌≡◌, refl, sym, ap, subst, ◌∙◌, inl, inr, Bool, true, false, not, ◌||◌, some, List, [], ◌∷◌,
  arith, if◌then◌else◌, Bool-cases, get_or, ◌==◌, nat_key, text_key, pair_key, triple_key,
  pair_beq_iff, filter, any, Among, Among-filter, filter-Among,
}
use prism_serve.Base.Dict.{Dict, lookup}
use prism_serve.Prefix.Index.{
  IndexKey, Owner, key_of, CacheLocation, PrefixIndex, owner_of, locations_at, keys_of, set_or_pop,
  is_owned, remove_owner_at, remove_keys, forget_owner, remove_owner, discard_key, remove_block,
}
use prism_serve.Prefix.Entries.{look_same, look_other, gone, left, set_or_pop_locations, owned_left}
use prism_serve.Prefix.Unlisting.{
  remove_owner-IsBacked, removed-forward, some_left-IsBacked, none_left-IsBacked,
}
use prism_serve.Prefix.Consistent.{Consistent}

set_or_pop_filled :
    (j k : IndexKey) (ls : List CacheLocation) (index : Dict IndexKey (List CacheLocation))
    → (lookup j index ≡ some [] → ⊥)
    → lookup j (set_or_pop k ls index) ≡ some []
    → ⊥
unfolding set_or_pop
set_or_pop_filled j k [] index old h = elim (Bool-cases (j == k)) [
  | inl same ↦ absurd (ground (arith, sym (gone j k index same) ∙ h))
  | inr other ↦ old (sym (left j k index other) ∙ h)
]
set_or_pop_filled j k (l ∷ ls) index old h = elim (Bool-cases (j == k)) [
  | inl same ↦ absurd (ground (arith, sym (look_same j k (l ∷ ls) index same) ∙ h))
  | inr other ↦ old (sym (look_other j k (l ∷ ls) index other) ∙ h)
]

-- A location that a filter of one entry leaves: it was there, and passed if it is of that entry.
filtered_location :
    (test : CacheLocation → Bool) (j k : IndexKey) (l : CacheLocation) (p : PrefixIndex)
    → Among l (get_or (lookup j (set_or_pop k (filter test (locations_at k p)) p.index)) [])
    → Among l (locations_at j p) × ((j == k) ≡ true → test l ≡ true)
filtered_location test j k l p n = elim (Bool-cases (j == k)) [
  | inl same ↦
      let m = Among-filter test l (locations_at k p) (
        subst (Among l)
          (set_or_pop_locations j k _ p.index
            ∙ ap (λ (b : Bool). if b then filter test (locations_at k p) else locations_at j p)
                same)
          n) in
      (subst (λ i. Among l (locations_at i p)) (sym ((pair_beq_iff j k).0 same)) m.0, λ x. m.1)
  | inr other ↦ (
    subst (Among l)
        (set_or_pop_locations j k _ p.index
          ∙ ap (λ (b : Bool). if b then filter test (locations_at k p) else locations_at j p) other)
        n,
    λ x. absurd (ground (arith, x, other)),
  )
]

removed_location :
    (o : Owner) (ks : List IndexKey) (p : PrefixIndex) (j : IndexKey) (l : CacheLocation)
    → Among l (locations_at j (remove_keys o ks p))
    → Among l (locations_at j p) × (Among j ks → is_owned o l ≡ false)
unfolding remove_keys remove_owner_at
removed_location o [] p j l n = (n, λ a. absurd a)
removed_location o (k ∷ ks) p j l n =
    let (m, later) = removed_location o ks (remove_owner_at o k p) j l n in
    let (m', here) = filtered_location (λ l. not (is_owned o l)) j k l p m in
    (m', λ a. elim a [ inl e ↦ ground (arith, here ((pair_beq_iff j k).1 e)) | inr a' ↦ later a' ])

removed_filled :
    (o : Owner) (ks : List IndexKey) (p : PrefixIndex) (j : IndexKey)
    → (lookup j p.index ≡ some [] → ⊥)
    → lookup j (remove_keys o ks p).index ≡ some []
    → ⊥
unfolding remove_keys remove_owner_at
removed_filled o [] p j old = old
removed_filled o (k ∷ ks) p j old =
    removed_filled o ks (remove_owner_at o k p) j (set_or_pop_filled j k _ p.index old)

pub remove_owner-Consistent :
    (o : Owner) (p : PrefixIndex) → Consistent p → Consistent (remove_owner o p)
unfolding remove_owner forget_owner is_owned
remove_owner-Consistent o p v = record {
  keyed = λ k l n. v.keyed k l (removed_location o (keys_of o p) p k l n).0;
  listed = λ k l n.
      let (m, out) = removed_location o (keys_of o p) p k l n in
      let at = v.listed k l m in
      elim (Bool-cases (owner_of l == o)) [
        | inl own ↦ absurd (
            true_false own
              (out (subst (λ x. Among k (keys_of x p)) ((pair_beq_iff (owner_of l) o).0 own) at)))
        | inr other ↦
            subst (λ d. Among k (get_or d []))
              (sym (
                left (owner_of l) o (remove_keys o (keys_of o p) p).forward other
                ∙ ap (lookup (owner_of l)) (removed-forward o (keys_of o p) p)))
              at
      ];
  filled = λ k. removed_filled o (keys_of o p) p k (v.filled k);
  backed = remove_owner-IsBacked o p v.backed;
}
  where
    true_false : {b : Bool} → b ≡ true → b ≡ false → ⊥
    true_false e f = cc

module _ (k : IndexKey) (o : Owner) (block_id : ℕ) (p : PrefixIndex) (v : Consistent p) where
  abbrev stays : CacheLocation → Bool
  stays l = not (is_owned o l) || not (l.block_id == block_id)

  abbrev thinned : PrefixIndex
  thinned = record p { index = set_or_pop k (filter stays (locations_at k p)) p.index }

  thinned_keyed :
      (j : IndexKey) (l : CacheLocation) → Among l (locations_at j thinned) → key_of l ≡ j
  thinned_keyed j l n = v.keyed j l (filtered_location stays j k l p n).0

  thinned_listed :
      (j : IndexKey) (l : CacheLocation)
      → Among l (locations_at j thinned)
      → Among j (keys_of (owner_of l) thinned)
  thinned_listed j l n = v.listed j l (filtered_location stays j k l p n).0

  thinned_filled : (j : IndexKey) → lookup j thinned.index ≡ some [] → ⊥
  thinned_filled j = set_or_pop_filled j k _ p.index (v.filled j)

  listed-Consistent : any (is_owned o) (filter stays (locations_at k p)) ≡ true → Consistent thinned
  listed-Consistent some_left = record {
    keyed = thinned_keyed;
    listed = thinned_listed;
    filled = thinned_filled;
    backed = some_left-IsBacked k o block_id p v.backed some_left;
  }

  at_key :
      (l : CacheLocation)
      → Among l (locations_at k thinned)
      → Among l (filter stays (locations_at k p))
  at_key l n =
      subst (Among l)
        (set_or_pop_locations k k _ p.index
          ∙ ap (λ (b : Bool). if b then filter stays (locations_at k p) else locations_at k p)
              ((pair_beq_iff k k).1 refl))
        n

  unlisted-Consistent :
      any (is_owned o) (filter stays (locations_at k p)) ≡ false
      → Consistent (discard_key k o thinned)
  unfolding discard_key is_owned
  unlisted-Consistent none_left = record {
    keyed = thinned_keyed;
    listed = λ j l n.
        let at = thinned_listed j l n in
        elim (Bool-cases (owner_of l == o)) [
          | inr other ↦
              subst (λ d. Among j (get_or d []))
                (sym (look_other (owner_of l) o _ thinned.forward other)) at
          | inl own ↦
              subst (λ d. Among j (get_or d []))
                (sym (look_same (owner_of l) o _ thinned.forward own))
                (filter-Among (λ i. not (i == k)) j (keys_of o thinned) (elsewhere j l n own)
                  (subst (λ x. Among j (keys_of x thinned)) ((pair_beq_iff (owner_of l) o).0 own)
                    at))
        ];
    filled = thinned_filled;
    backed = none_left-IsBacked k o block_id p v.backed;
  }
    where
      true_false : {b : Bool} → b ≡ true → b ≡ false → ⊥
      true_false e f = cc

      elsewhere :
          (j : IndexKey) (l : CacheLocation)
          → Among l (locations_at j thinned)
          → (owner_of l == o) ≡ true
          → not (j == k) ≡ true
      elsewhere j l n own = elim (Bool-cases (j == k)) [
        | inr other ↦ ap not other
        | inl same ↦ absurd (
            true_false
              (owned_left o l (filter stays (locations_at k p))
                (at_key l
                  (subst (λ i. Among l (locations_at i thinned)) ((pair_beq_iff j k).0 same) n))
                own)
              none_left)
      ]

  pub remove_block-Consistent : Consistent (remove_block k o block_id p)
  unfolding remove_block
  remove_block-Consistent = elim (Bool-cases (any (is_owned o) (filter stays (locations_at k p)))) [
    | inl some_left ↦ rw (some_left, remove_block) (listed-Consistent some_left)
    | inr none_left ↦ rw (none_left, remove_block) (unlisted-Consistent none_left)
  ]
