-- ===== src/Prelude/Dict.antt =====
-- Go's maps, as association lists in the order in which `range` would visit them.
use mathlib.Core.Path.{◌≡◌, refl}
use mathlib.Core.Bool.{Bool}
use mathlib.Core.Option.{Option, none, some}
use mathlib.Core.List.{List, [], ◌∷◌}
use native.Mathlib.Omega.{arith}
use squelch.Prelude.Tests.{if◌then◌else◌}
use squelch.Prelude.Equality.{Comparable, ◌==◌}

abbrev pub Dict {ℓ κ} : Type ℓ → Type κ → Type (ℓ ⊔ κ)
Dict K V = List (K × V)

-- What is left of an entry after `retain`.
abbrev pub kept {ℓ} : {V : Type ℓ} → (V → Bool) → Option V → Option V
kept keep none = none
kept keep (some v) = if keep v then some v else none

module _ {ℓ κ} {K : Type ℓ} {V : Type κ} ⦃c : Comparable K⦄ where
  -- `delete(m, k)`
  unfoldable pub delete : K → Dict K V → Dict K V
  delete k [] = []
  delete k ((key, val) ∷ rest) = if key == k then delete k rest else (key, val) ∷ delete k rest

  -- `for k, v := range m { if !keep(k, v) { delete(m, k) } }`
  unfoldable pub retain : (K → V → Bool) → Dict K V → Dict K V
  retain keep [] = []
  retain keep ((key, val) ∷ rest) =
      if keep key val then (key, val) ∷ retain keep rest else retain keep rest

  -- `m[k] = new`
  unfoldable pub insert : K → V → Dict K V → Dict K V
  insert k new [] = (k, new) ∷ []
  insert k new ((key, val) ∷ rest) =
      if key == k then (k, new) ∷ rest else (key, val) ∷ insert k new rest

  -- `v, ok := m[k]`
  unfoldable pub lookup : K → Dict K V → Option V
  lookup k ((key, val) ∷ rest) = if key == k then some val else lookup k rest
  lookup k [] = none

  -- No key stands twice.
  abbrev pub IsKeyed : Dict K V → Type κ
  IsKeyed [] = Unit
  IsKeyed ((key, val) ∷ rest) = (lookup key rest ≡ none) × IsKeyed rest

  pub lookup-insert :
      (k j : K) (v : V) (m : Dict K V)
      → lookup j (insert k v m) ≡ (if k == j then some v else lookup j m)
  unfolding lookup insert
  lookup-insert k j v [] = refl
  lookup-insert k j v ((key, val) ∷ rest) =
      ground
        (arith, c.equals_iff k j, c.equals_iff key k, c.equals_iff key j, lookup-insert k j v rest)

  pub lookup-insert_self : (k : K) (v : V) (m : Dict K V) → lookup k (insert k v m) ≡ some v
  lookup-insert_self k v m = ground (arith, lookup-insert k k v m, c.equals_iff k k)

  pub lookup-delete :
      (k j : K) (m : Dict K V) → lookup j (delete k m) ≡ (if k == j then none else lookup j m)
  unfolding lookup delete
  lookup-delete k j [] = ground arith
  lookup-delete k j ((key, val) ∷ rest) =
      ground
        (arith, c.equals_iff k j, c.equals_iff key k, c.equals_iff key j, lookup-delete k j rest)

  pub lookup-delete_self : (k : K) (m : Dict K V) → lookup k (delete k m) ≡ none
  lookup-delete_self k m = ground (arith, lookup-delete k k m, c.equals_iff k k)

  pub lookup-retain-none :
      (keep : K → V → Bool) (j : K) (m : Dict K V)
      → lookup j m ≡ none
      → lookup j (retain keep m) ≡ none
  unfolding lookup retain
  lookup-retain-none keep j [] h = refl
  lookup-retain-none keep j ((key, val) ∷ rest) h = ground (arith, lookup-retain-none keep j rest)

  pub lookup-retain :
      (keep : K → V → Bool) (j : K) (m : Dict K V)
      → IsKeyed m
      → lookup j (retain keep m) ≡ kept (keep j) (lookup j m)
  unfolding lookup retain
  lookup-retain keep j [] h = refl
  lookup-retain keep j ((key, val) ∷ rest) h =
      ground
        (arith, c.equals_iff key j, lookup-retain-none keep j rest, lookup-retain keep j rest h.1)

  pub insert-IsKeyed : (k : K) (v : V) (m : Dict K V) → IsKeyed m → IsKeyed (insert k v m)
  unfolding lookup insert
  insert-IsKeyed k v [] h = (refl, tt)
  insert-IsKeyed k v ((key, val) ∷ rest) h = ground (
    arith,
    c.equals_iff key k,
    c.equals_iff k key,
    lookup-insert k key v rest,
    insert-IsKeyed k v rest h.1,
  )

  pub delete-IsKeyed : (k : K) (m : Dict K V) → IsKeyed m → IsKeyed (delete k m)
  unfolding lookup delete
  delete-IsKeyed k [] h = tt
  delete-IsKeyed k ((key, val) ∷ rest) h =
      ground (arith, lookup-delete k key rest, delete-IsKeyed k rest h.1)

  pub retain-IsKeyed : (keep : K → V → Bool) (m : Dict K V) → IsKeyed m → IsKeyed (retain keep m)
  unfolding lookup retain
  retain-IsKeyed keep [] h = tt
  retain-IsKeyed keep ((key, val) ∷ rest) h =
      ground (arith, lookup-retain-none keep key rest, retain-IsKeyed keep rest h.1)
