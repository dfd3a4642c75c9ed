-- ===== src/Base/Order.antt =====
-- Python's order on texts and tuples of them, by code points, and `sorted` by a test of order.
use Prim.Native.Nat.{ℕ, suc, ◌+◌, Ordering, compare as compare_ℕ}
use Prim.Native.Char.{code}
use Prim.Native.String.compare
use Prim.Native.String.{String, [] as nil, ◌∷◌ as cons, then as next, compare}
use mathlib.Core.Path.{◌≡◌, refl, sym, ap, ◌∙◌}
use mathlib.Core.Bool.{Bool, true, false}
use mathlib.Core.List.{List, [], ◌∷◌}
use mathlib.Core.Logic.{inl, inr}
use native.Mathlib.Omega.{arith}
use prism_serve.Base.Equality.{◌==◌, text_key, str_eq_iff}
use prism_serve.Base.Tests.{if◌then◌else◌, Bool-cases}
use prism_serve.Base.Lists.{length, any, All, Pairwise}

abbrev flip : Ordering → Ordering
flip Ordering.lt = Ordering.gt
flip Ordering.eq = Ordering.eq
flip Ordering.gt = Ordering.lt

numbers-flip : (m n : ℕ) → compare_ℕ n m ≡ flip (compare_ℕ m n)
numbers-flip m n = ground arith

next-flip : (a b : Ordering) → flip (next a b) ≡ next (flip a) (flip b)
next-flip Ordering.lt b = refl
next-flip Ordering.eq b = refl
next-flip Ordering.gt b = refl

compare-flip : (s t : String) → compare t s ≡ flip (compare s t)
compare-flip nil nil = compare.nil-nil ∙ ap flip (sym compare.nil-nil)
compare-flip nil (cons d t) = compare.cons-nil d t ∙ ap flip (sym (compare.nil-cons d t))
compare-flip (cons c s) nil = compare.nil-cons c s ∙ ap flip (sym (compare.cons-nil c s))
compare-flip (cons c s) (cons d t) =
    compare.cons-cons d c t s
    ∙ ap (λ o. next o (compare t s)) (numbers-flip (code c) (code d))
    ∙ ap (next (flip (compare_ℕ (code c) (code d)))) (compare-flip s t)
    ∙ sym (next-flip (compare_ℕ (code c) (code d)) (compare s t))
    ∙ ap flip (sym (compare.cons-cons c d s t))

-- `s < t`
abbrev pub before : String → String → Bool
before s t = elim (compare s t) [ Ordering.lt ↦ true | _ ↦ false ]

before_asym : (s t : String) → before s t ≡ true → before t s ≡ false
before_asym s t h = ground (arith, compare-flip s t)

-- `a < b` on tuples of three texts.
abbrev pub tuple_before : String × String × String → String × String × String → Bool
tuple_before a b =
    if a.0 == b.0 then (if a.1 == b.1 then before a.2 b.2 else before a.1 b.1) else before a.0 b.0

pub tuple_before_asym :
    (a b : String × String × String) → tuple_before a b ≡ true → tuple_before b a ≡ false
tuple_before_asym a b h = ground (
  arith,
  before_asym a.0 b.0,
  before_asym a.1 b.1,
  before_asym a.2 b.2,
  str_eq_iff a.0 b.0,
  str_eq_iff b.0 a.0,
  str_eq_iff a.1 b.1,
  str_eq_iff b.1 a.1,
)

-- `sorted(xs)` by the test `lt`: stable.
module _ {ℓ} {A : Type ℓ} (lt : A → A → Bool) where
  unfoldable pub insort : A → List A → List A
  insort x [] = x ∷ []
  insort x (y ∷ ys) = let rest = insort x ys in if lt y x then y ∷ rest else x ∷ y ∷ ys

  unfoldable pub sorted : List A → List A
  sorted [] = []
  sorted (x ∷ xs) = insort x (sorted xs)

  IsSorted : List A → Type 0
  IsSorted [] = Unit
  IsSorted (x ∷ []) = Unit
  IsSorted (x ∷ y ∷ ys) = (lt y x ≡ false) × IsSorted (y ∷ ys)

  insort_least : (x : A) (ys : List A) → IsSorted (x ∷ ys) → insort x ys ≡ x ∷ ys
  unfolding IsSorted insort
  insort_least x [] h = refl
  insort_least x (y ∷ ys) h = rw h.0 refl

  tail-IsSorted : (x : A) (ys : List A) → IsSorted (x ∷ ys) → IsSorted ys
  unfolding IsSorted
  tail-IsSorted x [] h = tt
  tail-IsSorted x (y ∷ ys) h = h.1

  sorted_same : (xs : List A) → IsSorted xs → sorted xs ≡ xs
  unfolding sorted
  sorted_same [] h = refl
  sorted_same (x ∷ xs) h =
      ap (insort x) (sorted_same xs (tail-IsSorted x xs h)) ∙ insort_least x xs h

  module _ (asym : (a b : A) → lt a b ≡ true → lt b a ≡ false) where
    insort-IsSorted_below :
        (w x : A) (ys : List A) → IsSorted (w ∷ ys) → lt x w ≡ false → IsSorted (w ∷ insort x ys)
    unfolding IsSorted insort
    insort-IsSorted_below w x [] h e = (e, tt)
    insort-IsSorted_below w x (y ∷ ys) h e = elim (Bool-cases (lt y x)) [
      | inl less ↦ rw less (h.0, insort-IsSorted_below y x ys h.1 (asym y x less))
      | inr more ↦ rw more (e, (more, h.1))
    ]

    insort-IsSorted : (x : A) (ys : List A) → IsSorted ys → IsSorted (insort x ys)
    unfolding IsSorted insort
    insort-IsSorted x [] h = tt
    insort-IsSorted x (y ∷ ys) h = elim (Bool-cases (lt y x)) [
      | inl less ↦ rw less (insort-IsSorted_below y x ys h (asym y x less))
      | inr more ↦ rw more (more, h)
    ]

    sorted-IsSorted : (xs : List A) → IsSorted (sorted xs)
    unfolding IsSorted sorted
    sorted-IsSorted [] = tt
    sorted-IsSorted (x ∷ xs) = insort-IsSorted x (sorted xs) (sorted-IsSorted xs)

    pub sorted_again : (xs : List A) → sorted (sorted xs) ≡ sorted xs
    sorted_again xs = sorted_same (sorted xs) (sorted-IsSorted xs)

  length-insort : (x : A) (xs : List A) → length (insort x xs) ≡ suc (length xs)
  unfolding insort
  length-insort x [] = refl
  length-insort x (y ∷ ys) = ground (arith, length-insort x ys)

  pub length-sorted : (xs : List A) → length (sorted xs) ≡ length xs
  unfolding sorted
  length-sorted [] = refl
  length-sorted (x ∷ xs) = omega (arith, length-insort x (sorted xs), length-sorted xs)

  module _ {κ} (P : A → Type κ) where
    All-insort : (x : A) (xs : List A) → P x → All P xs → All P (insort x xs)
    unfolding insort
    All-insort x [] p h = (p, tt)
    All-insort x (y ∷ ys) p h = elim (Bool-cases (lt y x)) [
      | inl less ↦ rw less (h.0, All-insort x ys p h.1)
      | inr more ↦ rw more (p, h)
    ]

    pub All-sorted : (xs : List A) → All P xs → All P (sorted xs)
    unfolding sorted
    All-sorted [] h = tt
    All-sorted (x ∷ xs) h = All-insort x (sorted xs) h.0 (All-sorted xs h.1)

  module _ {κ} (R : A → A → Type κ) (swap : (a b : A) → R a b → R b a) where
    Pairwise-insort :
        (x : A) (xs : List A) → All (R x) xs → Pairwise R xs → Pairwise R (insort x xs)
    unfolding insort
    Pairwise-insort x [] a h = (tt, tt)
    Pairwise-insort x (y ∷ ys) a h = elim (Bool-cases (lt y x)) [
      | inl less ↦ rw less (All-insort (R y) x ys (swap x y a.0) h.0, Pairwise-insort x ys a.1 h.1)
      | inr more ↦ rw more (a, h)
    ]

    pub Pairwise-sorted : (xs : List A) → Pairwise R xs → Pairwise R (sorted xs)
    unfolding sorted
    Pairwise-sorted [] h = tt
    Pairwise-sorted (x ∷ xs) h =
        Pairwise-insort x (sorted xs) (All-sorted (R x) xs h.0) (Pairwise-sorted xs h.1)

-- `len(set(xs))`
unfoldable pub distinct_count : List String → ℕ
distinct_count [] = 0
distinct_count (x ∷ xs) = if any (λ y. x == y) xs then distinct_count xs else distinct_count xs + 1
