-- ===== src/Base/Lists.antt =====
-- Lists measured by native numbers, under the library's names, and predicates on lists.
use Prim.Native.Nat.{ℕ, zero, suc, ◌+◌, ◌-◌, ◌≤◌}
use mathlib.Core.Path.{◌≡◌, refl, ap, sym, subst, ◌∙◌}
use mathlib.Core.Bool.{Bool, true, false, ◌&&◌, ◌||◌}
use mathlib.Core.List.{List, [], ◌∷◌, ◌++◌, map}
use native.Mathlib.Omega.{arith}
use prism_serve.Base.Tests.{if◌then◌else◌, Bool-cases}
use mathlib.Core.Logic.{◌⊎◌, inl, inr}

module _ {ℓ} {A : Type ℓ} where
  abbrev pub length : List A → ℕ
  length [] = 0
  length (x ∷ xs) = suc (length xs)

  abbrev pub take : ℕ → List A → List A
  take zero xs = []
  take (suc n) [] = []
  take (suc n) (x ∷ xs) = x ∷ take n xs

  abbrev pub drop : ℕ → List A → List A
  drop zero xs = xs
  drop (suc n) [] = []
  drop (suc n) (x ∷ xs) = drop n xs

  -- `[x for x in xs if p(x)]`
  abbrev pub filter : (A → Bool) → List A → List A
  filter p [] = []
  filter p (x ∷ xs) = if p x then x ∷ filter p xs else filter p xs

  abbrev pub any : (A → Bool) → List A → Bool
  any p [] = false
  any p (x ∷ xs) = p x || any p xs

  abbrev pub all : (A → Bool) → List A → Bool
  all p [] = true
  all p (x ∷ xs) = p x && all p xs

  abbrev pub All {κ} : (A → Type κ) → List A → Type κ
  All P [] = Unit
  All P (x ∷ xs) = P x × All P xs

  abbrev pub Pairwise {κ} : (A → A → Type κ) → List A → Type κ
  Pairwise R [] = Unit
  Pairwise R (x ∷ xs) = All (R x) xs × Pairwise R xs

  pub length-append : (xs ys : List A) → length (xs ++ ys) ≡ length xs + length ys
  length-append [] ys = omega arith
  length-append (x ∷ xs) ys = omega (arith, length-append xs ys)

  pub append_nil : (xs : List A) → xs ++ [] ≡ xs
  append_nil [] = refl
  append_nil (x ∷ xs) = ap (λ r. x ∷ r) (append_nil xs)

  pub append_step : (xs : List A) (y : A) (zs : List A) → (xs ++ y ∷ []) ++ zs ≡ xs ++ y ∷ zs
  append_step [] y zs = refl
  append_step (x ∷ xs) y zs = ap (λ r. x ∷ r) (append_step xs y zs)

  pub length-drop : (n : ℕ) (xs : List A) → length (drop n xs) ≡ length xs - n
  length-drop zero xs = omega arith
  length-drop (suc n) [] = omega arith
  length-drop (suc n) (x ∷ xs) = omega (arith, length-drop n xs)

  pub take-append : (n : ℕ) (xs ys : List A) → n ≤ length xs → take n (xs ++ ys) ≡ take n xs
  take-append zero xs ys h = refl
  take-append (suc n) [] ys h = absurd (omega (arith, h))
  take-append (suc n) (x ∷ xs) ys h = ap (λ r. x ∷ r) (take-append n xs ys (omega (arith, h)))

  pub drop-append : (n : ℕ) (xs ys : List A) → n ≤ length xs → drop n (xs ++ ys) ≡ drop n xs ++ ys
  drop-append zero xs ys h = refl
  drop-append (suc n) [] ys h = absurd (omega (arith, h))
  drop-append (suc n) (x ∷ xs) ys h = drop-append n xs ys (omega (arith, h))

module _ {ℓ κ} {A : Type ℓ} where
  pub length-map : {B : Type κ} (f : A → B) (xs : List A) → length (map f xs) ≡ length xs
  length-map f [] = refl
  length-map f (x ∷ xs) = ap suc (length-map f xs)

  pub All-append : (P : A → Type κ) (xs ys : List A) → All P xs → All P ys → All P (xs ++ ys)
  All-append P [] ys g h = h
  All-append P (x ∷ xs) ys g h = (g.0, All-append P xs ys g.1 h)

  pub All-drop : (P : A → Type κ) (n : ℕ) (xs : List A) → All P xs → All P (drop n xs)
  All-drop P zero xs h = h
  All-drop P (suc n) [] h = tt
  All-drop P (suc n) (x ∷ xs) h = All-drop P n xs h.1

  pub Pairwise-drop :
      (R : A → A → Type κ) (n : ℕ) (xs : List A) → Pairwise R xs → Pairwise R (drop n xs)
  Pairwise-drop R zero xs h = h
  Pairwise-drop R (suc n) [] h = tt
  Pairwise-drop R (suc n) (x ∷ xs) h = Pairwise-drop R n xs h.1

  pub All-map : (P Q : A → Type κ) (f : (x : A) → P x → Q x) (xs : List A) → All P xs → All Q xs
  All-map P Q f [] h = tt
  All-map P Q f (x ∷ xs) h = (f x h.0, All-map P Q f xs h.1)

  -- The last element, related to all before it.
  pub Pairwise-last :
      (R : A → A → Type κ) (xs : List A) (y : A)
      → Pairwise R xs
      → All (λ x. R x y) xs
      → Pairwise R (xs ++ y ∷ [])
  Pairwise-last R [] y h a = (tt, tt)
  Pairwise-last R (x ∷ xs) y h a =
      (All-append (R x) xs (y ∷ []) h.0 (a.0, tt), Pairwise-last R xs y h.1 a.1)

module _ {A : Type 0} where
  -- `x in xs`
  abbrev pub Among : A → List A → Type 0
  Among x [] = ⊥
  Among x (y ∷ ys) = (x ≡ y) ⊎ Among x ys

  pub Among-filter :
      (p : A → Bool) (x : A) (xs : List A) → Among x (filter p xs) → Among x xs × (p x ≡ true)
  Among-filter p x [] h = absurd h
  Among-filter p x (y ∷ ys) h = elim (Bool-cases (p y)) [
    | inl kept ↦
        elim (subst (λ (b : Bool). Among x (if b then y ∷ filter p ys else filter p ys)) kept h) [
          | inl e ↦ (inl e, ap p e ∙ kept)
          | inr m ↦ (inr (Among-filter p x ys m).0, (Among-filter p x ys m).1)
        ]
    | inr skip ↦
        let m = subst (λ (b : Bool). Among x (if b then y ∷ filter p ys else filter p ys)) skip h in
        (inr (Among-filter p x ys m).0, (Among-filter p x ys m).1)
  ]

  pub filter-Among :
      (p : A → Bool) (x : A) (xs : List A) → p x ≡ true → Among x xs → Among x (filter p xs)
  filter-Among p x [] h m = m
  filter-Among p x (y ∷ ys) h (inl e) = rw (sym (ap p e) ∙ h) (inl e)
  filter-Among p x (y ∷ ys) h (inr m) = elim (Bool-cases (p y)) [
    | inl kept ↦ rw kept (inr (filter-Among p x ys h m))
    | inr skip ↦ rw skip (filter-Among p x ys h m)
  ]
