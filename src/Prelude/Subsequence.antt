-- ===== src/Prelude/Subsequence.antt =====
-- One list inside another, in the same order but not always side by side.
use Prim.Native.Nat.{ℕ, ◌+◌, ◌≤◌}
use mathlib.Core.Path.{◌≡◌, refl, ◌∙◌}
use mathlib.Core.Logic.{◌⊎◌, inl, inr}
use mathlib.Core.Bool.{Bool}
use mathlib.Core.List.{List, [], ◌∷◌, ◌++◌}
use native.Mathlib.Omega.{arith}
use squelch.Prelude.Tests.{if◌then◌else◌}

-- How many elements pass a test.
abbrev pub count {ℓ} : {A : Type ℓ} → (A → Bool) → List A → ℕ
count p [] = 0
count p (x ∷ xs) = (if p x then 1 else 0) + count p xs

abbrev pub IsSubsequence {ℓ} : {A : Type ℓ} → List A → List A → Type ℓ
IsSubsequence [] ys = Unit
IsSubsequence (x ∷ xs) [] = x ∷ xs ≡ []
IsSubsequence (x ∷ xs) (y ∷ ys) = ((x ≡ y) × IsSubsequence xs ys) ⊎ IsSubsequence (x ∷ xs) ys

module _ {ℓ} {A : Type ℓ} where
  weaken : (xs ys : List A) (y : A) → IsSubsequence xs ys → IsSubsequence xs (y ∷ ys)
  weaken [] ys y h = tt
  weaken (x ∷ xs) ys y h = inr h

  without_first : (x : A) (xs ys : List A) → IsSubsequence (x ∷ xs) ys → IsSubsequence xs ys
  without_first x xs [] h = cc
  without_first x xs (y ∷ ys) (inl (e, h)) = weaken xs ys y h
  without_first x xs (y ∷ ys) (inr h) = weaken xs ys y (without_first x xs ys h)

  pub IsSubsequence-refl : (xs : List A) → IsSubsequence xs xs
  IsSubsequence-refl [] = tt
  IsSubsequence-refl (x ∷ xs) = inl (refl, IsSubsequence-refl xs)

  pub IsSubsequence-trans :
      (xs ys zs : List A) → IsSubsequence xs ys → IsSubsequence ys zs → IsSubsequence xs zs
  IsSubsequence-trans [] ys zs h k = tt
  IsSubsequence-trans (x ∷ xs) [] zs h k = cc
  IsSubsequence-trans (x ∷ xs) (y ∷ ys) [] h k = cc
  IsSubsequence-trans (x ∷ xs) (y ∷ ys) (z ∷ zs) (inl (d, h)) (inl (e, k)) =
      inl (d ∙ e, IsSubsequence-trans xs ys zs h k)
  IsSubsequence-trans (x ∷ xs) (y ∷ ys) (z ∷ zs) (inr h) (inl (e, k)) =
      inr (IsSubsequence-trans (x ∷ xs) ys zs h k)
  IsSubsequence-trans (x ∷ xs) (y ∷ ys) (z ∷ zs) h (inr k) =
      inr (IsSubsequence-trans (x ∷ xs) (y ∷ ys) zs h k)

  behind : (ys xs : List A) → IsSubsequence xs (ys ++ xs)
  behind [] xs = IsSubsequence-refl xs
  behind (y ∷ ys) xs = weaken xs (ys ++ xs) y (behind ys xs)

  pub IsSubsequence-append_right :
      (xs ys more : List A) → IsSubsequence xs ys → IsSubsequence (xs ++ more) (ys ++ more)
  IsSubsequence-append_right [] ys more h = behind ys more
  IsSubsequence-append_right (x ∷ xs) [] more h = cc
  IsSubsequence-append_right (x ∷ xs) (y ∷ ys) more (inl (e, h)) =
      inl (e, IsSubsequence-append_right xs ys more h)
  IsSubsequence-append_right (x ∷ xs) (y ∷ ys) more (inr h) =
      inr (IsSubsequence-append_right (x ∷ xs) ys more h)

  pub IsSubsequence-more :
      (xs ys more : List A) → IsSubsequence xs ys → IsSubsequence xs (ys ++ more)
  IsSubsequence-more [] ys more h = tt
  IsSubsequence-more (x ∷ xs) [] more h = cc
  IsSubsequence-more (x ∷ xs) (y ∷ ys) more (inl (e, h)) = inl (e, IsSubsequence-more xs ys more h)
  IsSubsequence-more (x ∷ xs) (y ∷ ys) more (inr h) = inr (IsSubsequence-more (x ∷ xs) ys more h)

  pub count-IsSubsequence :
      (p : A → Bool) (xs ys : List A) → IsSubsequence xs ys → count p xs ≤ count p ys
  count-IsSubsequence p [] ys h = ground arith
  count-IsSubsequence p (x ∷ xs) [] h = cc
  count-IsSubsequence p (x ∷ xs) (y ∷ ys) (inl (e, h)) =
      ground (arith, e, count-IsSubsequence p xs ys h)
  count-IsSubsequence p (x ∷ xs) (y ∷ ys) (inr h) =
      ground (arith, count-IsSubsequence p (x ∷ xs) ys h)

  pub count-append : (p : A → Bool) (xs ys : List A) → count p (xs ++ ys) ≡ count p xs + count p ys
  count-append p [] ys = ground arith
  count-append p (x ∷ xs) ys = ground (arith, count-append p xs ys)
