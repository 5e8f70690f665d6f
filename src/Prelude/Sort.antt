-- ===== src/Prelude/Sort.antt =====
-- Go's `sort.Slice` on a list, with the order given by a test `less`. The order of elements that
-- neither test puts first is that of the input; Go leaves it open.
use mathlib.Core.Path.{◌≡◌}
use mathlib.Core.Bool.{Bool, true, false}
use mathlib.Core.List.{List, [], ◌∷◌, Perm}
use mathlib.Core.List.Perm
use native.Mathlib.Omega.{arith}
use squelch.Prelude.Tests.{if◌then◌else◌, Bool-cases}
use mathlib.Core.Logic.{inl, inr}

-- Every element satisfies the predicate.
abbrev pub All {ℓ κ} : {A : Type ℓ} → (A → Type κ) → List A → Type κ
All P [] = Unit
All P (x ∷ xs) = P x × All P xs

pub All-map {ℓ κ} :
    {A : Type ℓ} (P Q : A → Type κ) → ((a : A) → P a → Q a) → (xs : List A) → All P xs → All Q xs
All-map P Q f [] h = tt
All-map P Q f (x ∷ xs) h = (f x h.0, All-map P Q f xs h.1)

module _ {ℓ} {A : Type ℓ} (less : A → A → Bool) where
  unfoldable pub insert_by : A → List A → List A
  insert_by a [] = a ∷ []
  insert_by a (x ∷ xs) = if less x a then x ∷ insert_by a xs else a ∷ x ∷ xs

  unfoldable pub sort_by : List A → List A
  unfolding insert_by
  sort_by [] = []
  sort_by (x ∷ xs) = insert_by x (sort_by xs)

  -- No element is less than one before it.
  abbrev pub IsSortedBy : List A → Type ℓ
  IsSortedBy [] = Unit
  IsSortedBy (x ∷ xs) = All (λ y. less y x ≡ false) xs × IsSortedBy xs

  pub insert_by-perm : (a : A) (xs : List A) → Perm (insert_by a xs) (a ∷ xs)
  unfolding insert_by
  insert_by-perm a [] = Perm.refl _
  insert_by-perm a (x ∷ xs) = elim (Bool-cases (less x a)) [
    | inl later ↦ rw later (Perm.trans (Perm.cons x (insert_by-perm a xs)) (Perm.swap a x xs))
    | inr here ↦ rw here (Perm.refl _)
  ]

  pub sort_by-perm : (xs : List A) → Perm (sort_by xs) xs
  unfolding sort_by
  sort_by-perm [] = Perm.refl _
  sort_by-perm (x ∷ xs) = Perm.trans (insert_by-perm x (sort_by xs)) (Perm.cons x (sort_by-perm xs))

-- `less` is a strict weak order, as `sort.Slice` asks of it.
pub record IsWeakOrder {ℓ} {A : Type ℓ} (less : A → A → Bool) : Type ℓ where
  pub asym : (a b : A) → less a b ≡ true → less b a ≡ false
  pub negtrans : (a b c : A) → less a b ≡ false → less b c ≡ false → less a c ≡ false

module _ {ℓ} {A : Type ℓ} (less : A → A → Bool) (order : IsWeakOrder less) where
  All-insert_by :
      (P : A → Type 0) (a : A) (xs : List A) → P a → All P xs → All P (insert_by less a xs)
  unfolding insert_by
  All-insert_by P a [] pa h = (pa, tt)
  All-insert_by P a (x ∷ xs) pa h = ground (arith, All-insert_by P a xs pa h.1)

  insert_by-IsSortedBy :
      (a : A) (xs : List A) → IsSortedBy less xs → IsSortedBy less (insert_by less a xs)
  unfolding insert_by
  insert_by-IsSortedBy a [] h = (tt, tt)
  insert_by-IsSortedBy a (x ∷ xs) h = elim (Bool-cases (less x a)) [
    | inl later ↦ rw later (
      All-insert_by (λ y. less y x ≡ false) a xs (order.asym x a later) h.0,
      insert_by-IsSortedBy a xs h.1,
    )
    | inr here ↦
        rw here ((here, All-map _ _ (λ y before. order.negtrans y x a before here) xs h.0), h)
  ]

  pub sort_by-IsSortedBy : (xs : List A) → IsSortedBy less (sort_by less xs)
  unfolding sort_by
  sort_by-IsSortedBy [] = tt
  sort_by-IsSortedBy (x ∷ xs) = insert_by-IsSortedBy x (sort_by less xs) (sort_by-IsSortedBy xs)
