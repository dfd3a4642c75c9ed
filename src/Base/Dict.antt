-- ===== src/Base/Dict.antt =====
-- A Python dict, in insertion order. `insert` keeps the place of a key that is there.
use Prim.Native.Nat.{ℕ, ◌+◌, ◌≤◌}
use mathlib.Core.Path.{◌≡◌, refl}
use mathlib.Core.Bool.{Bool, false, true}
use mathlib.Core.Option.{Option, none, some}
use mathlib.Core.List.{List, [], ◌∷◌, map}
use native.Mathlib.Omega.{arith}
use mathlib.Core.Logic.{inl, inr}
use prism_serve.Base.Tests.{if◌then◌else◌, is_some, Bool-cases}
use prism_serve.Base.Equality.{Key, ◌==◌, text_key, str_eq_iff}
use Prim.Native.String.{String}

abbrev pub Dict {ℓ κ} : Type ℓ → Type κ → Type (ℓ ⊔ κ)
Dict K V = List (K × V)

module _ {ℓ κ} {K : Type ℓ} {V : Type κ} where
  abbrev pub keys : Dict K V → List K
  keys = map (λ p. p.0)

  abbrev pub values : Dict K V → List V
  values = map (λ p. p.1)

module _ {ℓ κ} {K : Type ℓ} {V : Type κ} ⦃key : Key K⦄ where
  -- `d.get(k)`
  unfoldable pub lookup : K → Dict K V → Option V
  lookup k [] = none
  lookup k ((j, v) ∷ d) = if k == j then some v else lookup k d

  -- `k in d`
  abbrev pub contains : K → Dict K V → Bool
  contains k d = is_some (lookup k d)

  -- `d[k] = v`
  unfoldable pub insert : K → V → Dict K V → Dict K V
  insert k v [] = (k, v) ∷ []
  insert k v ((j, w) ∷ d) = if k == j then (j, v) ∷ d else (j, w) ∷ insert k v d

  -- `d.pop(k, None)`
  unfoldable pub erase : K → Dict K V → Dict K V
  erase k [] = []
  erase k ((j, w) ∷ d) = if k == j then erase k d else (j, w) ∷ erase k d

  pub lookup-insert :
      (j k : K) (v : V) (d : Dict K V)
      → lookup j (insert k v d) ≡ (if j == k then some v else lookup j d)
  unfolding lookup insert
  lookup-insert j k v [] = refl
  lookup-insert j k v ((i, w) ∷ d) =
      ground (arith, key.eqb_iff j k, key.eqb_iff k i, key.eqb_iff j i, lookup-insert j k v d)

  pub lookup-erase :
      (j k : K) (d : Dict K V) → lookup j (erase k d) ≡ (if j == k then none else lookup j d)
  unfolding lookup erase
  lookup-erase j k [] = ground arith
  lookup-erase j k ((i, w) ∷ d) =
      ground (arith, key.eqb_iff j k, key.eqb_iff k i, key.eqb_iff j i, lookup-erase j k d)

module _ {ℓ κ} {K : Type ℓ} {V : Type κ} ⦃key : Key K⦄ where
  pub insert-lookup : (k : K) (v : V) (d : Dict K V) → lookup k (insert k v d) ≡ some v
  insert-lookup k v d = ground (arith, lookup-insert k k v d, key.eqb_iff k k)

  pub insert_again : (k : K) (v w : V) (d : Dict K V) → insert k v (insert k w d) ≡ insert k v d
  unfolding insert
  insert_again k v w [] = ground (arith, key.eqb_iff k k)
  insert_again k v w ((j, u) ∷ d) = ground (arith, insert_again k v w d)

  pub insert_known : (k : K) (v : V) (d : Dict K V) → lookup k d ≡ some v → insert k v d ≡ d
  unfolding insert lookup
  insert_known k v [] h = cc
  insert_known k v ((j, u) ∷ d) h = ground (arith, insert_known k v d)

module _ {κ} {V : Type κ} where
  pub lookup_same : (k : String) (v : V) (d : Dict String V) → lookup k (insert k v d) ≡ some v
  lookup_same k v d = ground (arith, lookup-insert k k v d, str_eq_iff k k)

  pub lookup_other :
      (j k : String) (v : V) (d : Dict String V)
      → (j == k) ≡ false
      → lookup j (insert k v d) ≡ lookup j d
  lookup_other j k v d h = ground (arith, lookup-insert j k v d)

  pub lookup_gone :
      (j k : String) (d : Dict String V) → (j == k) ≡ true → lookup j (erase k d) ≡ none
  lookup_gone j k d h = ground (arith, lookup-erase j k d)

  pub lookup_left :
      (j k : String) (d : Dict String V) → (j == k) ≡ false → lookup j (erase k d) ≡ lookup j d
  lookup_left j k d h = ground (arith, lookup-erase j k d)

-- No key stands twice.
abbrev pub Distinct {ℓ κ} : {K : Type ℓ} {V : Type κ} ⦃key : Key K⦄ → Dict K V → Type κ
Distinct [] = Unit
Distinct ((k, v) ∷ d) = (lookup k d ≡ none) × Distinct d

-- `sum(f(v) for v in d.values())`
unfoldable pub sum_by {ℓ κ} : {K : Type ℓ} {V : Type κ} → (V → ℕ) → Dict K V → ℕ
sum_by f [] = 0
sum_by f ((k, v) ∷ d) = f v + sum_by f d

module _ {ℓ κ} {K : Type ℓ} {V : Type κ} ⦃key : Key K⦄ where
  pub insert-Distinct : (k : K) (v : V) (d : Dict K V) → Distinct d → Distinct (insert k v d)
  unfolding lookup insert
  insert-Distinct k v [] h = (refl, tt)
  insert-Distinct k v ((j, w) ∷ d) h = elim (Bool-cases (k == j)) [
    | inl same ↦ rw same h
    | inr other ↦ rw other (
      ground (arith, lookup-insert j k v d, key.eqb_iff k j, key.eqb_iff j k),
      insert-Distinct k v d h.1,
    )
  ]

  pub erase-Distinct : (k : K) (d : Dict K V) → Distinct d → Distinct (erase k d)
  unfolding lookup erase
  erase-Distinct k [] h = h
  erase-Distinct k ((j, w) ∷ d) h = elim (Bool-cases (k == j)) [
    | inl same ↦ rw same (erase-Distinct k d h.1)
    | inr other ↦ rw other (ground (arith, lookup-erase j k d), erase-Distinct k d h.1)
  ]

  erase_absent : (k : K) (d : Dict K V) → lookup k d ≡ none → erase k d ≡ d
  unfolding lookup erase
  erase_absent k [] h = refl
  erase_absent k ((j, w) ∷ d) h = ground (arith, erase_absent k d)

  pub sum_by-insert_new :
      (f : V → ℕ) (k : K) (v : V) (d : Dict K V)
      → lookup k d ≡ none
      → sum_by f (insert k v d) ≡ sum_by f d + f v
  unfolding sum_by insert lookup
  sum_by-insert_new f k v [] h = omega arith
  sum_by-insert_new f k v ((j, w) ∷ d) h = ground (arith, sum_by-insert_new f k v d)

  pub sum_by-insert_old :
      (f : V → ℕ) (k : K) (v w : V) (d : Dict K V)
      → lookup k d ≡ some w
      → sum_by f (insert k v d) + f w ≡ sum_by f d + f v
  unfolding sum_by insert lookup
  sum_by-insert_old f k v w [] h = cc
  sum_by-insert_old f k v w ((j, u) ∷ d) h = ground (arith, sum_by-insert_old f k v w d)

  pub sum_by-erase :
      (f : V → ℕ) (k : K) (v : V) (d : Dict K V)
      → Distinct d
      → lookup k d ≡ some v
      → sum_by f (erase k d) + f v ≡ sum_by f d
  unfolding sum_by erase lookup
  sum_by-erase f k v [] n h = cc
  sum_by-erase f k v ((j, w) ∷ d) n h =
      ground (arith, key.eqb_iff k j, erase_absent k d, sum_by-erase f k v d n.1)

  pub sum_by_ge :
      (f : V → ℕ) (k : K) (v : V) (d : Dict K V) → lookup k d ≡ some v → f v ≤ sum_by f d
  unfolding sum_by lookup
  sum_by_ge f k v [] h = cc
  sum_by_ge f k v ((j, w) ∷ d) h = ground (arith, sum_by_ge f k v d)

pub ruleset dict_laws = (lookup-insert, lookup-erase)
