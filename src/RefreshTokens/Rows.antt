-- ===== src/RefreshTokens/Rows.antt =====
-- What the statements do to the usable rows of one family.
use squelch.Prelude.{
  ℕ, suc, ◌+◌, ◌≤◌, ◌≡◌, Bool, true, false, not, ◌&&◌, List, [], ◌∷◌, ◌++◌, some, String, ◌==◌,
  text_comparable, nat_comparable, int_comparable, if◌then◌else◌, arith, ==_refl, Bool-cases, inl,
  inr,
}
use squelch.RefreshTokens.{RefreshToken, find_row, revoke_where, rows_where}

-- A row that can be exchanged for a new token of its family.
abbrev pub is_live : String → RefreshToken → Bool
is_live family r = r.family_id == family && not r.revoked

abbrev pub live_rows : String → List RefreshToken → ℕ
live_rows family [] = 0
live_rows family (r ∷ rs) = (if is_live family r then 1 else 0) + live_rows family rs

pub live_rows-append :
    (family : String) (rows : List RefreshToken) (r : RefreshToken)
    → live_rows family (rows ++ r ∷ [])
      ≡ live_rows family rows + (if is_live family r then 1 else 0)
live_rows-append family [] r = ground arith
live_rows-append family (x ∷ rows) r = ground (arith, live_rows-append family rows r)

pub live_rows-revoke_where :
    (family : String) (test : RefreshToken → Bool) (rows : List RefreshToken)
    → live_rows family (revoke_where test rows) ≤ live_rows family rows
unfolding revoke_where
live_rows-revoke_where family test [] = omega arith
live_rows-revoke_where family test (r ∷ rows) =
    ground (arith, live_rows-revoke_where family test rows)

pub live_rows-rows_where :
    (family : String) (test : RefreshToken → Bool) (rows : List RefreshToken)
    → live_rows family (rows_where test rows) ≤ live_rows family rows
unfolding rows_where
live_rows-rows_where family test [] = omega arith
live_rows-rows_where family test (r ∷ rows) = ground (arith, live_rows-rows_where family test rows)

-- A revoked family has none.
pub live_rows-revoke_family :
    (family : String) (rows : List RefreshToken)
    → live_rows family (revoke_where (λ r. r.family_id == family) rows) ≡ 0
unfolding revoke_where
live_rows-revoke_family family [] = omega arith
live_rows-revoke_family family (r ∷ rows) = ground (arith, live_rows-revoke_family family rows)

pub find_row-live :
    (test : RefreshToken → Bool) (rows : List RefreshToken) {r : RefreshToken}
    → find_row test rows ≡ some r
    → r.revoked ≡ false
    → suc (live_rows r.family_id (revoke_where (λ x. x.id == r.id) rows))
      ≤ live_rows r.family_id rows
unfolding find_row revoke_where
find_row-live test [] e h = cc
find_row-live test (x ∷ rows) {r} e h = ground (
  arith,
  ==_refl r.id,
  ==_refl r.family_id,
  find_row-live test rows {r = r},
  live_rows-revoke_where r.family_id (λ x. x.id == r.id) rows,
)

-- The row that is found, and found again once it was revoked and other rows were added.
pub find_row-again :
    (test : RefreshToken → Bool) (rows more : List RefreshToken) {r : RefreshToken}
    → ((x : RefreshToken) → test (record x { revoked = true }) ≡ test x)
    → find_row test rows ≡ some r
    → find_row test (revoke_where (λ x. x.id == r.id) rows ++ more)
      ≡ some (record r { revoked = true })
unfolding find_row revoke_where
find_row-again test [] more blind e = cc
find_row-again test (x ∷ rows) more {r} blind e = elim (Bool-cases (test x)) [
  | inl hit ↦ ground (arith, hit, blind x, ==_refl r.id)
  | inr miss ↦ ground (arith, miss, blind x, find_row-again test rows more {r = r} blind)
]
