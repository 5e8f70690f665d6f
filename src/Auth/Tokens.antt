-- ===== src/Auth/Tokens.antt =====
-- The token tracker of backend/internal/auth/auth.go: which access tokens are still honoured.
-- Instants are nanoseconds since Go's zero time; the times inside a token are Unix seconds. The
-- mutex makes each method one step. `MaxTokens` is not 0, so that a full list has a first entry.
pub mod Entries
pub mod Finality
pub mod Owners
use squelch.Prelude.{
  ℕ, ◌+◌, ◌*◌, Bool, true, false, not, List, [], ◌∷◌, ◌++◌, Option, none, some, String, ltb, leb,
  ◌==◌, text_comparable, int_comparable, if◌then◌else◌, length,
}
use squelch.Prelude.Int.{ℤ}
use squelch.Prelude.Dict.{Dict, lookup, insert, delete, retain}

abbrev pub access_token_expiry : ℕ
access_token_expiry = 15 * 60 * 1_000_000_000

abbrev pub max_refresh_families : ℕ
max_refresh_families = 20

pub record TokenEntry : Type 0 where
  pub jti : String
  pub expires_at : ℕ

pub record TokenTracker : Type 0 where
  pub max_tokens : ℕ
  pub user_tokens : Dict ℤ (List TokenEntry)
  pub denied : Dict String ℕ
  pub denied_families : Dict String ℕ
  pub valid_from : ℕ

-- What the checks read of a token's claims.
pub record Claims : Type 0 where
  pub user_id : ℤ
  pub username : String
  pub role : String
  pub account_exp : ℕ
  pub family_id : String
  pub id : String
  pub issued_at : Option ℕ

unfoldable pub new_token_tracker : ℕ → TokenTracker
new_token_tracker now_unix = record {
  max_tokens = max_refresh_families;
  user_tokens = [];
  denied = [];
  denied_families = [];
  valid_from = now_unix;
}

abbrev pub entries_or_none : Option (List TokenEntry) → List TokenEntry
entries_or_none none = []
entries_or_none (some es) = es

-- `tt.userTokens[userID]`
unfoldable pub tokens_of : ℤ → TokenTracker → List TokenEntry
tokens_of user t = entries_or_none (lookup user t.user_tokens)

-- The loops of `cleanupLocked`: the entries that stay, and the denials that go with the others.
unfoldable pub live_entries : ℕ → List TokenEntry → List TokenEntry
live_entries now [] = []
live_entries now (e ∷ es) =
    if ltb now e.expires_at then e ∷ live_entries now es else live_entries now es

unfoldable pub forget_expired : ℕ → List TokenEntry → Dict String ℕ → Dict String ℕ
forget_expired now [] denied = denied
forget_expired now (e ∷ es) denied =
    forget_expired now es (if ltb now e.expires_at then denied else delete e.jti denied)

unfoldable pub live_users : ℕ → Dict ℤ (List TokenEntry) → Dict ℤ (List TokenEntry)
unfolding live_entries
live_users now [] = []
live_users now ((user, es) ∷ rest) = elim (live_entries now es) [
  | [] ↦ live_users now rest
  | valid ∷ more ↦ (user, valid ∷ more) ∷ live_users now rest
]

unfoldable pub forget_users : ℕ → Dict ℤ (List TokenEntry) → Dict String ℕ → Dict String ℕ
unfolding forget_expired
forget_users now [] denied = denied
forget_users now ((user, es) ∷ rest) denied = forget_users now rest (forget_expired now es denied)

abbrev pub not_past : ℕ → String → ℕ → Bool
not_past now key expiry = not (ltb expiry now)

unfoldable pub cleanup : ℕ → TokenTracker → TokenTracker
unfolding live_users forget_users
cleanup now t = record t {
  user_tokens = live_users now t.user_tokens;
  denied = retain (not_past now) (forget_users now t.user_tokens t.denied);
  denied_families = retain (not_past now) t.denied_families;
}

-- The denial of the oldest token of a full list, and what is left of the list.
unfoldable pub evict : ℕ → List TokenEntry → Dict String ℕ → List TokenEntry × Dict String ℕ
evict max_tokens [] denied = ([], denied)
evict max_tokens (e ∷ es) denied =
    if leb max_tokens (length (e ∷ es))
    then (es, insert e.jti e.expires_at denied)
    else (e ∷ es, denied)

unfoldable pub track : ℤ → String → ℕ → ℕ → TokenTracker → TokenTracker
unfolding cleanup tokens_of evict
track user jti expires_at now t =
    let t' = cleanup now t in
    let (entries, denied) = evict t'.max_tokens (tokens_of user t') t'.denied in
    record t' {
      user_tokens =
          insert user (entries ++ record { jti = jti; expires_at = expires_at } ∷ [])
            t'.user_tokens;
      denied = denied;
    }

unfoldable pub is_revoked : String → ℕ → TokenTracker → TokenTracker × Bool
is_revoked jti now t = elim (lookup jti t.denied) [
  | none ↦ (t, false)
  | some expiry ↦
      if ltb expiry now then (record t { denied = delete jti t.denied }, false) else (t, true)
]

unfoldable pub revoke : String → ℕ → TokenTracker → TokenTracker
revoke jti now t = record t { denied = insert jti (now + access_token_expiry) t.denied }

unfoldable pub revoke_family : String → ℕ → TokenTracker → TokenTracker
revoke_family family now t =
    if family == ""
    then t
    else record t { denied_families = insert family (now + access_token_expiry) t.denied_families }

unfoldable pub family_revoked : String → ℕ → TokenTracker → TokenTracker × Bool
family_revoked family now t = elim (lookup family t.denied_families) [
  | none ↦ (t, false)
  | some expiry ↦
      if ltb expiry now
      then (record t { denied_families = delete family t.denied_families }, false)
      else (t, true)
]

unfoldable pub deny_all : List TokenEntry → Dict String ℕ → Dict String ℕ
deny_all [] denied = denied
deny_all (e ∷ es) denied = deny_all es (insert e.jti e.expires_at denied)

unfoldable pub revoke_all_for_user : ℤ → TokenTracker → TokenTracker
unfolding deny_all tokens_of
revoke_all_for_user user t = record t {
  denied = deny_all (tokens_of user t) t.denied;
  user_tokens = delete user t.user_tokens;
}

-- `claims.IssuedAt == nil || claims.IssuedAt.Unix() < tt.validFrom`
abbrev pub predates : Claims → TokenTracker → Bool
predates claims t = elim (claims.issued_at) [ none ↦ true | some at ↦ ltb at t.valid_from ]

-- The clock is read once for each of the two checks.
unfoldable pub rejects : Claims → ℕ → ℕ → TokenTracker → TokenTracker × Bool
unfolding family_revoked is_revoked
rejects claims now later t =
    if predates claims t
    then (t, true)
    else if claims.family_id == ""
    then is_revoked claims.id later t
    else let (t', gone) = family_revoked claims.family_id now t in
      if gone then (t', true) else is_revoked claims.id later t'
