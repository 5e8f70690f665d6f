-- ===== src/Prelude/Window.antt =====
-- Lists of stamped events, oldest first, and the part of them inside a time window.
use Prim.Native.Nat.{ℕ, ◌≤◌}
use mathlib.Core.Path.{◌≡◌, refl}
use mathlib.Core.Logic.{inl, inr}
use mathlib.Core.List.{List, [], ◌∷◌, ◌++◌}
use native.Mathlib.Omega.{arith}
use squelch.Prelude.Tests.{if◌then◌else◌, ltb, leb, Bool-cases}
use squelch.Prelude.Sort.{All, All-map}

module _ {ℓ} {A : Type ℓ} (at : A → ℕ) where
  -- `i := 0; for i < len(l) && at(l[i]) < cutoff { i++ }; l[i:]`
  unfoldable pub drop_before : ℕ → List A → List A
  drop_before cutoff [] = []
  drop_before cutoff (x ∷ xs) = if ltb (at x) cutoff then drop_before cutoff xs else x ∷ xs

  -- The events at or after the cutoff, wherever they stand.
  unfoldable pub since : ℕ → List A → List A
  since cutoff [] = []
  since cutoff (x ∷ xs) = if leb cutoff (at x) then x ∷ since cutoff xs else since cutoff xs

  abbrev pub Ascending : List A → Type 0
  Ascending [] = Unit
  Ascending (x ∷ xs) = All (λ y. at x ≤ at y) xs × Ascending xs

  since-All : (cutoff : ℕ) (xs : List A) → All (λ y. cutoff ≤ at y) xs → since cutoff xs ≡ xs
  unfolding since
  since-All cutoff [] h = refl
  since-All cutoff (x ∷ xs) h = ground (arith, since-All cutoff xs)

  -- On ordered events the loop finds them all.
  pub drop_before-since :
      (cutoff : ℕ) (xs : List A) → Ascending xs → drop_before cutoff xs ≡ since cutoff xs
  unfolding drop_before since
  drop_before-since cutoff [] h = refl
  drop_before-since cutoff (x ∷ xs) h = elim (Bool-cases (ltb (at x) cutoff)) [
    | inl old ↦ ground (arith, drop_before-since cutoff xs h.1)
    | inr recent ↦ ground (
      arith,
      since-All cutoff xs
          (All-map (λ y. at x ≤ at y) (λ y. cutoff ≤ at y) (λ y k. ground arith) xs h.0),
    )
  ]

  pub since-since : (c d : ℕ) (xs : List A) → c ≤ d → since d (since c xs) ≡ since d xs
  unfolding since
  since-since c d [] h = refl
  since-since c d (x ∷ xs) h = ground (arith, since-since c d xs)

  pub since-append : (c : ℕ) (xs ys : List A) → since c (xs ++ ys) ≡ since c xs ++ since c ys
  unfolding since
  since-append c [] ys = refl
  since-append c (x ∷ xs) ys = ground (arith, since-append c xs ys)

  All-since : (P : A → Type 0) (c : ℕ) (xs : List A) → All P xs → All P (since c xs)
  unfolding since
  All-since P c [] h = tt
  All-since P c (x ∷ xs) h = ground (arith, All-since P c xs h.1)

  pub Ascending-since : (c : ℕ) (xs : List A) → Ascending xs → Ascending (since c xs)
  unfolding since
  Ascending-since c [] h = tt
  Ascending-since c (x ∷ xs) h =
      ground (arith, All-since (λ y. at x ≤ at y) c xs h.0, Ascending-since c xs h.1)

  -- What an ordered list says of its parts.
  pub Ascending-left : (xs ys : List A) → Ascending (xs ++ ys) → Ascending xs
  Ascending-left [] ys h = tt
  Ascending-left (x ∷ xs) ys h = (All-left xs ys h.0, Ascending-left xs ys h.1)
    where
      All-left : (xs ys : List A) → All (λ y. at x ≤ at y) (xs ++ ys) → All (λ y. at x ≤ at y) xs
      All-left [] ys h = tt
      All-left (x ∷ xs) ys h = (h.0, All-left xs ys h.1)
