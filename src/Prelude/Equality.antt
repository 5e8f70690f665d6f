-- ===== src/Prelude/Equality.antt =====
-- Equality tests as an interface, as Go's `==` on comparable types: one operator for numbers and
-- texts.
use Prim.Native.Nat.{ℕ}
use Prim.Native.String.{String}
use mathlib.Core.Path.{◌≡◌, refl}
use mathlib.Core.Logic.{◌↔◌, ◌≢◌}
use mathlib.Core.Bool.{Bool, true, false}
use native.Mathlib.Omega.{arith}
use text.Mathlib.Text.{◌==◌ as same_text}
use text.Mathlib.TextEquality.{eq_iff}
use squelch.Prelude.Tests.{nat_beq, nat_beq_iff}
use squelch.Prelude.Int.{ℤ, pos, negsuc}

-- A comparable type, with its test.
pub record Comparable {ℓ} (K : Type ℓ) : Type ℓ where
  pub equals : K → K → Bool
  pub equals_iff : (x y : K) → (x ≡ y) ↔ (equals x y ≡ true)

infix 50 ◌==◌
abbrev pub ◌==◌ {ℓ} : {K : Type ℓ} ⦃c : Comparable K⦄ → K → K → Bool
◌==◌ ⦃c⦄ x y = c.equals x y

pub texts_equal : (x y : String) → (x ≡ y) ↔ (same_text x y ≡ true)
texts_equal x y = ((eq_iff x y).1, (eq_iff x y).0)

instance abbrev pub text_comparable : Comparable String
text_comparable = record { equals = same_text; equals_iff = texts_equal }

instance abbrev pub nat_comparable : Comparable ℕ
nat_comparable = record { equals = nat_beq; equals_iff = nat_beq_iff }

-- Shut, so that a test of two unknown numbers stays one term.
unfoldable pub int_beq : ℤ → ℤ → Bool
int_beq (pos m) (pos n) = nat_beq m n
int_beq (negsuc m) (negsuc n) = nat_beq m n
int_beq _ _ = false

pub int_beq_iff : (a b : ℤ) → (a ≡ b) ↔ (int_beq a b ≡ true)
unfolding int_beq
int_beq_iff (pos m) (pos n) = ground arith
int_beq_iff (pos m) (negsuc n) = ground arith
int_beq_iff (negsuc m) (pos n) = ground arith
int_beq_iff (negsuc m) (negsuc n) = ground arith

instance abbrev pub int_comparable : Comparable ℤ
int_comparable = record { equals = int_beq; equals_iff = int_beq_iff }

module _ {ℓ} {K : Type ℓ} ⦃c : Comparable K⦄ where
  pub ==_iff : (x y : K) → ((x == y) ≡ true) ↔ (x ≡ y)
  ==_iff x y = ((c.equals_iff x y).1, (c.equals_iff x y).0)

  pub ==_refl : (x : K) → (x == x) ≡ true
  ==_refl x = (c.equals_iff x x).0 refl

  pub ==_ne : (x y : K) → x ≢ y → (x == y) ≡ false
  ==_ne x y h = ground (arith, c.equals_iff x y)
