-- ===== src/Base/Equality.antt =====
-- Python's `==` on texts, numbers and tuples of them: what a dict's keys need.
use Prim.Native.Nat.{ℕ}
use Prim.Native.String.{String}
use mathlib.Core.Path.{◌≡◌}
use mathlib.Core.Logic.{◌↔◌}
use mathlib.Core.Bool.{Bool, true, ◌&&◌}
use native.Mathlib.Omega.{arith}
use text.Mathlib.Text.{◌==◌ as str_eq}
use text.Mathlib.TextEquality.{eq_iff}
use prism_serve.Base.Tests.{nat_beq, nat_beq_iff}

pub record Key {ℓ} (K : Type ℓ) : Type ℓ where
  pub eqb : K → K → Bool
  pub eqb_iff : (j k : K) → (eqb j k ≡ true) ↔ (j ≡ k)

module _ {ℓ} {K : Type ℓ} ⦃key : Key K⦄ where
  infix 50 ◌==◌
  abbrev pub ◌==◌ : K → K → Bool
  j == k = key.eqb j k

instance abbrev pub text_key : Key String
text_key = record { eqb = str_eq; eqb_iff = eq_iff }

instance abbrev pub nat_key : Key ℕ
nat_key = record { eqb = nat_beq; eqb_iff = nat_beq_iff }

module _ {ℓ κ} {J : Type ℓ} {K : Type κ} ⦃j : Key J⦄ ⦃k : Key K⦄ where
  abbrev pub pair_beq : J × K → J × K → Bool
  pair_beq p q = (p.0 == q.0) && (p.1 == q.1)

  pub pair_beq_iff : (p q : J × K) → (pair_beq p q ≡ true) ↔ (p ≡ q)
  pair_beq_iff p q = ground (arith, j.eqb_iff p.0 q.0, k.eqb_iff p.1 q.1)

  instance abbrev pub pair_key : Key (J × K)
  pair_key = record { eqb = pair_beq; eqb_iff = pair_beq_iff }

-- A text equals itself, in the form that `simp` reads.
pub str_eq_refl : (s : String) → str_eq s s ≡ true
str_eq_refl s = ground (arith, eq_iff s s)

pub str_eq_iff : (s t : String) → (str_eq s t ≡ true) ↔ (s ≡ t)
str_eq_iff = eq_iff

module _ {ℓ κ μ} {I : Type ℓ} {J : Type κ} {K : Type μ} ⦃i : Key I⦄ ⦃j : Key J⦄ ⦃k : Key K⦄ where
  abbrev pub triple_beq : I × J × K → I × J × K → Bool
  triple_beq p q = (p.0 == q.0) && (p.1 == q.1) && (p.2 == q.2)

  pub triple_beq_iff : (p q : I × J × K) → (triple_beq p q ≡ true) ↔ (p ≡ q)
  triple_beq_iff p q = ground (arith, i.eqb_iff p.0 q.0, j.eqb_iff p.1 q.1, k.eqb_iff p.2 q.2)

  instance abbrev pub triple_key : Key (I × J × K)
  triple_key = record { eqb = triple_beq; eqb_iff = triple_beq_iff }
