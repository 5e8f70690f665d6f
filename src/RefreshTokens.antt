-- ===== src/RefreshTokens.antt =====
-- backend/internal/db/refresh_tokens.sql.go: the table of refresh tokens, one function for each of
-- its statements that sign-in uses. Rows are in the order of their ids, which the database gives
-- out; times are Unix seconds.
pub mod Rows
use squelch.Prelude.{
  ℕ, suc, Bool, true, false, not, ◌&&◌, ◌||◌, List, [], ◌∷◌, ◌++◌, Option, none, some, String, ltb,
  ◌==◌, text_comparable, nat_comparable, int_comparable, if◌then◌else◌, length,
}
use squelch.Prelude.Int.{ℤ}

pub record RefreshToken : Type 0 where
  pub id : ℕ
  pub user_id : ℤ
  pub token_hash : String
  pub family_id : String
  pub expires_at : ℕ
  pub revoked : Bool
  pub created_at : ℕ
  pub native : Bool
  pub signed_in_at : Option ℕ

pub record RefreshTokens : Type 0 where
  pub rows : List RefreshToken
  pub next_id : ℕ

-- What is given for a new row. Its address and its user agent are only shown, and left out.
pub record CreateRefreshTokenParams : Type 0 where
  pub user_id : ℤ
  pub token_hash : String
  pub family_id : String
  pub expires_at : ℕ
  pub created_at : ℕ
  pub native : Bool
  pub signed_in_at : Option ℕ

abbrev pub new_row : ℕ → CreateRefreshTokenParams → RefreshToken
new_row id p = record {
  id = id;
  user_id = p.user_id;
  token_hash = p.token_hash;
  family_id = p.family_id;
  expires_at = p.expires_at;
  revoked = false;
  created_at = p.created_at;
  native = p.native;
  signed_in_at = p.signed_in_at;
}

unfoldable pub create_refresh_token : CreateRefreshTokenParams → RefreshTokens → RefreshTokens
create_refresh_token p t = record t {
  rows = t.rows ++ new_row t.next_id p ∷ [];
  next_id = suc t.next_id;
}

unfoldable pub find_row : (RefreshToken → Bool) → List RefreshToken → Option RefreshToken
find_row test [] = none
find_row test (r ∷ rs) = if test r then some r else find_row test rs

unfoldable pub get_refresh_token_by_hash : String → RefreshTokens → Option RefreshToken
unfolding find_row
get_refresh_token_by_hash hash t = find_row (λ r. r.token_hash == hash) t.rows

unfoldable pub revoke_where : (RefreshToken → Bool) → List RefreshToken → List RefreshToken
revoke_where test [] = []
revoke_where test (r ∷ rs) =
    (if test r then record r { revoked = true } else r) ∷ revoke_where test rs

unfoldable pub revoke_refresh_token : ℕ → RefreshTokens → RefreshTokens
unfolding revoke_where
revoke_refresh_token id t = record t { rows = revoke_where (λ r. r.id == id) t.rows }

unfoldable pub revoke_refresh_token_family : String → RefreshTokens → RefreshTokens
unfolding revoke_where
revoke_refresh_token_family family t = record t {
  rows = revoke_where (λ r. r.family_id == family) t.rows;
}

unfoldable pub revoke_all_refresh_tokens_for_user : ℤ → RefreshTokens → RefreshTokens
unfolding revoke_where
revoke_all_refresh_tokens_for_user user t = record t {
  rows = revoke_where (λ r. r.user_id == user) t.rows;
}

unfoldable pub rows_where : (RefreshToken → Bool) → List RefreshToken → List RefreshToken
rows_where test [] = []
rows_where test (r ∷ rs) = if test r then r ∷ rows_where test rs else rows_where test rs

unfoldable pub delete_expired_refresh_tokens : ℕ → RefreshTokens → RefreshTokens
unfolding rows_where
delete_expired_refresh_tokens now t = record t {
  rows = rows_where (λ r. not (ltb r.expires_at now)) t.rows;
}

-- A row of the user that can still be used.
abbrev pub is_active : ℤ → ℕ → RefreshToken → Bool
is_active user now r = r.user_id == user && not r.revoked && ltb now r.expires_at

-- `COUNT(DISTINCT family_id)`
unfoldable pub has_family : String → List RefreshToken → Bool
has_family family [] = false
has_family family (r ∷ rs) = r.family_id == family || has_family family rs

unfoldable pub count_families : List RefreshToken → ℕ
unfolding has_family
count_families [] = 0
count_families (r ∷ rs) =
    if has_family r.family_id rs then count_families rs else suc (count_families rs)

unfoldable pub count_active_refresh_token_families : ℤ → ℕ → RefreshTokens → ℕ
unfolding rows_where count_families
count_active_refresh_token_families user now t =
    count_families (rows_where (is_active user now) t.rows)

-- `ORDER BY created_at ASC LIMIT 1`; among rows of one second the database is free to choose.
unfoldable pub oldest_row : List RefreshToken → Option RefreshToken
oldest_row [] = none
oldest_row (r ∷ rs) = elim (oldest_row rs) [
  | none ↦ some r
  | some o ↦ if ltb o.created_at r.created_at then some o else some r
]

unfoldable pub get_oldest_active_refresh_token_family : ℤ → ℕ → RefreshTokens → Option String
unfolding rows_where oldest_row
get_oldest_active_refresh_token_family user now t =
    elim (oldest_row (rows_where (is_active user now) t.rows)) [
      | none ↦ none
      | some r ↦ some r.family_id
    ]

-- The newest of the rows, which are in the order of their ids.
unfoldable pub last_row : List RefreshToken → Option RefreshToken
last_row [] = none
last_row (r ∷ rs) = elim (last_row rs) [ none ↦ some r | some newer ↦ some newer ]

-- The owner of a family that can still be used. Which accounts there are is the users' table's.
unfoldable pub get_active_session_owner : (ℤ → Bool) → String → ℕ → RefreshTokens → Option ℤ
unfolding rows_where last_row
get_active_session_owner has_user family now t =
    elim (last_row (
      rows_where
        (λ r. r.family_id == family && not r.revoked && ltb now r.expires_at && has_user r.user_id)
        t.rows)) [ none ↦ none | some r ↦ some r.user_id ]
