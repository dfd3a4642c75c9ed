-- ===== src/Prefix/Backed.antt =====
-- A key that an owner lists has a location of that owner: prism_serve/router/prefix_index.py.
use prism_serve.Base.{
  ◌≡◌, refl, sym, subst, ◌⊎◌, inl, inr, true, List, [], ◌∷◌, arith, Bool-cases, ◌==◌, nat_key,
  text_key, pair_key, triple_key, pair_beq_iff, any, Among,
}
use prism_serve.Prefix.Index.{
  IndexKey, Owner, CacheLocation, PrefixIndex, key_of, owner_of, same_location, set_add,
  locations_at, keys_of, add_location, touch_owner,
}
use prism_serve.Prefix.Entries.{read_same, read_other, Among-set_add, set_add-Among}

abbrev pub HasLocation : Owner → IndexKey → PrefixIndex → Type 0
HasLocation o k p = (l : CacheLocation) × Among l (locations_at k p) × (owner_of l ≡ o)

abbrev pub IsBacked : PrefixIndex → Type 0
IsBacked p = (o : Owner) (k : IndexKey) → Among k (keys_of o p) → HasLocation o k p

-- A location that a set has under `==` has its owner.
same_location-owner : (l x : CacheLocation) → same_location l x ≡ true → owner_of x ≡ owner_of l
unfolding same_location
same_location-owner l x h = sym ((pair_beq_iff (owner_of l) (owner_of x)).0 (ground (arith, h)))

-- What `add` leaves in a set: the new one, or one that is equal to it.
added_one :
    (m : CacheLocation) (xs : List CacheLocation)
    → (l : CacheLocation) × Among l (set_add same_location m xs) × (owner_of l ≡ owner_of m)
unfolding set_add
added_one m xs = elim (Bool-cases (any (same_location m) xs)) [
  | inl old ↦ rw old (equal_one xs old)
  | inr fresh ↦ rw fresh (m, inl refl, refl)
]
  where
    equal_one :
        (xs : List CacheLocation)
        → any (same_location m) xs ≡ true
        → (l : CacheLocation) × Among l xs × (owner_of l ≡ owner_of m)
    equal_one [] h = cc
    equal_one (x ∷ xs) h = elim (Bool-cases (same_location m x)) [
      | inl same ↦ (x, inl refl, same_location-owner m x same)
      | inr other ↦ let (l, n, e) = equal_one xs (ground (arith, h, other)) in (l, inr n, e)
    ]

module _ (m : CacheLocation) (p : PrefixIndex) where
  -- A location of the index stays, and the new one is there.
  stays_there :
      (k : IndexKey) (l : CacheLocation)
      → Among l (locations_at k p)
      → Among l (locations_at k (add_location m p))
  unfolding add_location
  stays_there k l n = elim (Bool-cases (k == key_of m)) [
    | inr other ↦ subst (Among l) (sym (read_other k (key_of m) _ p.index other)) n
    | inl same ↦ subst (Among l) (sym (read_same k (key_of m) _ p.index same)) (
        set_add-Among same_location l m (locations_at (key_of m) p)
          (subst (λ j. Among l (locations_at j p)) ((pair_beq_iff k (key_of m)).0 same) n))
  ]

  new_there : HasLocation (owner_of m) (key_of m) (add_location m p)
  unfolding add_location
  new_there =
      let (l, n, e) = added_one m (locations_at (key_of m) p) in
      (
        l,
        subst (Among l)
            (sym (
              read_same (key_of m) (key_of m) _ p.index
                ((pair_beq_iff (key_of m) (key_of m)).1 refl)))
            n,
        e,
      )

  old_or_new :
      (o : Owner) (k : IndexKey)
      → Among k (keys_of o (add_location m p))
      → ((k ≡ key_of m) × (o ≡ owner_of m)) ⊎ Among k (keys_of o p)
  unfolding add_location
  old_or_new o k n = elim (Bool-cases (o == owner_of m)) [
    | inr other ↦ inr (subst (Among k) (read_other o (owner_of m) _ p.forward other) n)
    | inl same ↦
        let own = (pair_beq_iff o (owner_of m)).0 same in
        elim (Among-set_add (λ i j. i == j) k (key_of m) (keys_of (owner_of m) p)
          (subst (Among k) (read_same o (owner_of m) _ p.forward same) n)) [
            | inl e ↦ inl (e, own)
            | inr old ↦ inr (subst (λ x. Among k (keys_of x p)) (sym own) old)
          ]
  ]

  pub add_location-IsBacked : IsBacked p → IsBacked (add_location m p)
  add_location-IsBacked b o k n = elim (old_or_new o k n) [
    | inl (e, f) ↦
        subst (λ x. HasLocation x k (add_location m p)) (sym f)
          (subst (λ j. HasLocation (owner_of m) j (add_location m p)) (sym e) new_there)
    | inr old ↦ let (l, at, e) = b o k old in (l, stays_there k l at, e)
  ]

pub touch_owner-IsBacked : (o : Owner) (p : PrefixIndex) → IsBacked p → IsBacked (touch_owner o p)
unfolding touch_owner
touch_owner-IsBacked o p b o' k n = elim (Bool-cases (o' == o)) [
  | inr other ↦ b o' k (subst (Among k) (read_other o' o (keys_of o p) p.forward other) n)
  | inl own ↦ b o' k (
      subst (λ x. Among k (keys_of x p)) (sym ((pair_beq_iff o' o).0 own))
        (subst (Among k) (read_same o' o (keys_of o p) p.forward own) n))
]
