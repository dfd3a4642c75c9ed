-- ===== src/Scheduler/Best.antt =====
-- The best candidate of a dict, as `max` and `min` find it: prism_serve/scheduler/scheduler.py.
use prism_serve.Base.{
  ℕ, ◌≤◌, String, ◌≡◌, refl, sym, ap, subst, inl, inr, Bool, true, false, Option, none, some, List,
  [], ◌∷◌, arith, ltb, if◌then◌else◌, Bool-cases, ◌==◌, nat_key, text_key, pair_key, str_eq_iff,
  Among, filter, filter-Among, Among-filter,
}
use prism_serve.Base.Dict.{Dict, lookup, Distinct}
use prism_serve.Scheduler.Pick.{max_by, min_by}

-- One of the entries, and every entry is at most as good.
abbrev pub IsBest : {A : Type 0} → (A → A → Type 0) → A → A → List A → Type 0
IsBest le m b xs = Among m (b ∷ xs) × ((y : _) → Among y (b ∷ xs) → le y m)

module _ {A : Type 0} (le : A → A → Type 0)
    (le_trans : (x y z : A) → le x y → le y z → le x z) where
  take-IsBest : (m b x : A) (xs : List A) → le b x → IsBest le m x xs → IsBest le m b (x ∷ xs)
  take-IsBest m b x xs h (i, l) = (
    inr i,
    λ y n. elim n [
      | inl e ↦ le_trans y x m (subst (λ z. le z x) (sym e) h) (l x (inl refl))
      | inr n' ↦ l y n'
    ],
  )

  keep-IsBest : (m b x : A) (xs : List A) → le x b → IsBest le m b xs → IsBest le m b (x ∷ xs)
  keep-IsBest m b x xs h (i, l) = (
    elim i [ inl e ↦ inl e | inr n ↦ inr (inr n) ],
    λ y n. elim n [
      | inl e ↦ l y (inl e)
      | inr (inl e) ↦ le_trans y b m (subst (λ z. le z b) (sym e) h) (l b (inl refl))
      | inr (inr n') ↦ l y (inr n')
    ],
  )

module _ {A : Type 0} (key : A → ℕ) where
  abbrev pub IsBelow : A → A → Type 0
  IsBelow x y = key x ≤ key y

  abbrev pub IsAbove : A → A → Type 0
  IsAbove x y = key y ≤ key x

  pub max_by_lem : (b : A) (xs : List A) → IsBest IsBelow (max_by key b xs) b xs
  unfolding max_by
  max_by_lem b [] = (inl refl, λ y m. elim m [ inl e ↦ omega (arith, ap key e) | inr n ↦ absurd n ])
  max_by_lem b (x ∷ xs) = elim (Bool-cases (ltb (key b) (key x))) [
    | inl larger ↦
        subst (λ (c : Bool). IsBest IsBelow (max_by key (if c then x else b) xs) b (x ∷ xs))
          (sym larger)
          (take-IsBest IsBelow (λ x y z h k. omega (arith, h, k)) _ b x xs (ground arith)
            (max_by_lem x xs))
    | inr smaller ↦
        subst (λ (c : Bool). IsBest IsBelow (max_by key (if c then x else b) xs) b (x ∷ xs))
          (sym smaller)
          (keep-IsBest IsBelow (λ x y z h k. omega (arith, h, k)) _ b x xs (ground arith)
            (max_by_lem b xs))
  ]

  pub min_by_lem : (b : A) (xs : List A) → IsBest IsAbove (min_by key b xs) b xs
  unfolding min_by
  min_by_lem b [] = (inl refl, λ y m. elim m [ inl e ↦ omega (arith, ap key e) | inr n ↦ absurd n ])
  min_by_lem b (x ∷ xs) = elim (Bool-cases (ltb (key x) (key b))) [
    | inl smaller ↦
        subst (λ (c : Bool). IsBest IsAbove (min_by key (if c then x else b) xs) b (x ∷ xs))
          (sym smaller)
          (take-IsBest IsAbove (λ x y z h k. omega (arith, h, k)) _ b x xs (ground arith)
            (min_by_lem x xs))
    | inr larger ↦
        subst (λ (c : Bool). IsBest IsAbove (min_by key (if c then x else b) xs) b (x ∷ xs))
          (sym larger)
          (keep-IsBest IsAbove (λ x y z h k. omega (arith, h, k)) _ b x xs (ground arith)
            (min_by_lem b xs))
  ]

pub Among-lookup :
    {V : Type 0} (k : String) (v : V) (d : Dict String V)
    → Distinct d
    → Among (k, v) d
    → lookup k d ≡ some v
unfolding lookup
Among-lookup k v [] h m = absurd m
Among-lookup k v ((j, w) ∷ d) h (inl e) =
    ground (arith, str_eq_iff k j, ap (λ p. p.0) e, ap (λ p. p.1) e)
Among-lookup k v ((j, w) ∷ d) h (inr m) =
    ground
      (arith, str_eq_iff k j, Among-lookup k v d h.1 m, h.0, ap (λ i. lookup i d) {x = k} {y = j})

lookup-Among :
    {V : Type 0} (k : String) (v : V) (d : Dict String V) → lookup k d ≡ some v → Among (k, v) d
unfolding lookup
lookup-Among k v [] h = cc
lookup-Among k v ((j, w) ∷ d) h = elim (Bool-cases (k == j)) [
  | inl same ↦ inl (ground (arith, str_eq_iff k j))
  | inr other ↦ inr (lookup-Among k v d (ground arith))
]

-- What a pick of the best entry among the candidates gives: it is one, no candidate is better; or
-- there is none.
abbrev pub Chosen : (String × ℕ → Bool) → (ℕ → ℕ → Type 0) → Dict String ℕ → Option String → Type 0
Chosen candidate le d none = (k : String) (n : ℕ) → lookup k d ≡ some n → candidate (k, n) ≡ false
Chosen candidate le d (some i) =
    (n : ℕ) × (lookup i d ≡ some n)
    × (candidate (i, n) ≡ true)
    × ((k : String) (m : ℕ) → lookup k d ≡ some m → candidate (k, m) ≡ true → le m n)

module _ (candidate : String × ℕ → Bool) (le : ℕ → ℕ → Type 0) (d : Dict String ℕ)
    (distinct : Distinct d) where
  pub nothing-Chosen : filter candidate d ≡ [] → Chosen candidate le d none
  nothing-Chosen e k n h = elim (Bool-cases (candidate (k, n))) [
    | inl chosen ↦
        absurd
          (subst (Among (k, n)) e (filter-Among candidate (k, n) d chosen (lookup-Among k n d h)))
    | inr skipped ↦ skipped
  ]

  pub best-lookup :
      (p m : String × ℕ) (ps : List (String × ℕ))
      → filter candidate d ≡ p ∷ ps
      → IsBest (λ x y. le x.1 y.1) m p ps
      → lookup m.0 d ≡ some m.1
  best-lookup p m ps e (i, l) =
      Among-lookup m.0 m.1 d distinct (Among-filter candidate m d (subst (Among m) (sym e) i)).0

  pub best-Chosen :
      (p m : String × ℕ) (ps : List (String × ℕ))
      → filter candidate d ≡ p ∷ ps
      → IsBest (λ x y. le x.1 y.1) m p ps
      → Chosen candidate le d (some m.0)
  best-Chosen p m ps e (i, l) =
      let (j, c) = Among-filter candidate m d (subst (Among m) (sym e) i) in
      (
        m.1,
        Among-lookup m.0 m.1 d distinct j,
        c,
        λ k n h h'.
            l (k, n)
              (subst (Among (k, n)) e (filter-Among candidate (k, n) d h' (lookup-Among k n d h))),
      )
