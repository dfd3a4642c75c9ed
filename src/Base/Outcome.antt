-- ===== src/Base/Outcome.antt =====
-- Python's exceptions as values, and method calls that change an object's state. A raise keeps
-- what was written before it.
use Prim.Native.String.{String}
use mathlib.Core.Bool.{Bool, true, false}
use mathlib.Core.Path.{◌≡◌, refl, sym, ap, subst, ◌∙◌}
use mathlib.Core.Option.{Option, none, some}
use prism_serve.Base.Tests.{if◌then◌else◌}

-- The exception classes that the modelled code raises, with the fixed text of the message.
pub data Error : Type 0 where
  value_error : String → Error
  assertion_error : String → Error
  runtime_error : String → Error
  key_error : Error
  -- An exception of one of the program's own classes, by the class and the fixed text.
  class_error : String → String → Error

pub data Result {ℓ} (A : Type ℓ) : Type ℓ where
  ok : A → Result A
  err : Error → Result A

abbrev pub Action {ℓ κ} : Type ℓ → Type κ → Type (ℓ ⊔ κ)
Action S A = S → Result A × S

module _ {ℓ κ} {S : Type ℓ} {A : Type κ} where
  abbrev pub pure : A → Action S A
  pure a s = (ok a, s)

  abbrev pub raise : Error → Action S A
  raise e s = (err e, s)

  abbrev pub gets : (S → A) → Action S A
  gets f s = (ok (f s), s)

  abbrev pub or_raise : Option A → Error → Action S A
  or_raise none e = raise e
  or_raise (some a) e = pure a

module _ {ℓ} {S : Type ℓ} where
  abbrev pub modify : (S → S) → Action S (Unit {0})
  modify f s = (ok tt, f s)

  abbrev pub raise_if : Bool → Error → Action S (Unit {0})
  raise_if c e s = (if c then err e else ok tt, s)

infixl 5 ◌>>=◌ ◌>>◌
abbrev pub ◌>>=◌ {ℓ κ μ} :
    {S : Type ℓ} {A : Type κ} {B : Type μ} → Action S A → (A → Action S B) → Action S B
◌>>=◌ m f s = let (r, s') = m s in elim r [ ok a ↦ f a s' | err e ↦ raise e s' ]

abbrev pub ◌>>◌ {ℓ μ} : {S : Type ℓ} {B : Type μ} → Action S (Unit {0}) → Action S B → Action S B
m >> k = m >>= λ _. k

module _ {ℓ κ μ} {S : Type ℓ} {A : Type κ} {B : Type μ} (m : Action S A) (k : A → Action S B)
    (s : S) {t : S} where
  pub bind_ok : (a : A) → m s ≡ (ok a, t) → (m >>= k) s ≡ k a t
  bind_ok a h = ap (λ p. elim p.0 [ ok a ↦ k a p.1 | err e ↦ raise e p.1 ]) h

  pub bind_err : (e : Error) → m s ≡ (err e, t) → (m >>= k) s ≡ (err e, t)
  bind_err e h = ap (λ p. elim p.0 [ ok a ↦ k a p.1 | err e ↦ raise e p.1 ]) h

-- A step that passes leaves the rest to be done.
pub pass {ℓ μ} :
    {S : Type ℓ} {B : Type μ} (m : Action S (Unit {0})) (k : Action S B) (s : S) {t : S}
    {x : Result B × S}
    → m s ≡ (ok tt, t)
    → k t ≡ x
    → (m >> k) s ≡ x
pass m k s h g = bind_ok m (λ _. k) s tt h ∙ g

pub raise_if_none {ℓ} :
    {S : Type ℓ} (c : Bool) (e : Error) (s : S) → c ≡ false → raise_if c e s ≡ (ok tt, s)
raise_if_none c e s h = ap (λ b. raise_if b e s) h

-- The step raises and changes nothing, or it passes, changes nothing, and `P` holds.
pub data Checked {ℓ κ} {S : Type ℓ} (m : Action S (Unit {0})) (s : S) (P : Type κ)
    : Type (ℓ ⊔ κ) where
  raised : (e : Error) → m s ≡ (err e, s) → Checked m s P
  passed : m s ≡ (ok tt, s) → P → Checked m s P

pub raise_if-Checked {ℓ} :
    {S : Type ℓ} (c : Bool) (e : Error) (s : S) → Checked (raise_if c e) s (c ≡ false)
raise_if-Checked true e s = raised e refl
raise_if-Checked false e s = passed refl refl

module _ {ℓ κ} {S : Type ℓ} {P : Type κ} (m : Action S (Unit {0})) (s : S) where
  pub weaken-Checked {ν} : {Q : Type ν} → (P → Q) → Checked m s P → Checked m s Q
  weaken-Checked f (raised e h) = raised e h
  weaken-Checked f (passed h p) = passed h (f p)

  pub then-Checked {ν} :
      {Q : Type ν} (k : Action S (Unit {0}))
      → Checked m s P
      → (P → Checked k s Q)
      → Checked (m >> k) s (P × Q)
  then-Checked k (raised e h) f = raised e (bind_err m (λ _. k) s e h)
  then-Checked k (passed h p) f = elim (f p) [
    | raised e g ↦ raised e (pass m k s h g)
    | passed g q ↦ passed (pass m k s h g) (p, q)
  ]

  -- A property of the state that is left, after a check.
  pub after-Checked {μ ν} :
      {B : Type μ} (R : S → Type ν) (k : Action S B)
      → Checked m s P
      → R s
      → (P → R (k s).1)
      → R ((m >> k) s).1
  after-Checked R k (raised e h) r f = subst (λ p. R p.1) (sym (bind_err m (λ _. k) s e h)) r
  after-Checked R k (passed h p) r f = subst (λ p. R p.1) (sym (pass m k s h refl)) (f p)

-- A step that reads the state first.
pub reading-Checked {ℓ κ} :
    {S : Type ℓ} {P : Type κ} (k : S → Action S (Unit {0})) (s : S)
    → Checked (k s) s P
    → Checked (λ t. k t t) s P
reading-Checked k s (raised e h) = raised e h
reading-Checked k s (passed h p) = passed h p

abbrev pub give {ℓ κ} : {S : Type ℓ} {A : Type κ} → Result A → Action S A
give r s = (r, s)

give-state {ℓ κ} :
    {S : Type ℓ} {B : Type κ} (r : Result B) (p : Result (Unit {0}) × S)
    → (elim p.0 as (λ x. Result B × S) [ ok a ↦ give r p.1 | err e ↦ raise e p.1 ]).1 ≡ p.1
give-state r (ok u, s) = refl
give-state r (err e, s) = refl

-- An answer that changes nothing leaves what the steps before it have left.
pub after_give {ℓ κ} :
    {S : Type ℓ} {B : Type κ} (m : Action S (Unit {0})) (r : Result B) (s : S)
    → ((m >> give r) s).1 ≡ (m s).1
after_give m r s = give-state r (m s)

bound_end {ℓ κ μ ν} :
    {S : Type ℓ} {A : Type κ} {B : Type μ} (R : Result B × S → Type ν) (k : A → Action S B)
    (p q : Result A × S)
    → q ≡ p
    → ((a : A) (t : S) → q ≡ (ok a, t) → R (k a t))
    → ((e : Error) (t : S) → q ≡ (err e, t) → R (err e, t))
    → R (elim p.0 as (λ x. Result B × S) [ ok a ↦ k a p.1 | err e ↦ raise e p.1 ])
bound_end R k (ok a, t) q h f g = f a t h
bound_end R k (err e, t) q h f g = g e t h

-- A property of the answer and the state that is left, from those of the first step.
pub bind_end {ℓ κ μ ν} :
    {S : Type ℓ} {A : Type κ} {B : Type μ} (R : Result B × S → Type ν) (m : Action S A)
    (k : A → Action S B) (s : S)
    → ((a : A) (t : S) → m s ≡ (ok a, t) → R (k a t))
    → ((e : Error) (t : S) → m s ≡ (err e, t) → R (err e, t))
    → R ((m >>= k) s)
bind_end R m k s f g = bound_end R k (m s) (m s) refl f g
