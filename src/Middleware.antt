-- ===== src/Middleware.antt =====
-- backend/internal/middleware/auth.go: how a request with an access token is identified. The
-- token tracker is state, parsing and verifying a token a parameter, and a request one instant, in
-- nanoseconds since Go's zero time. An absent header or cookie is the empty text, as in the code.
pub mod Checks
pub mod ApiKeys
use squelch.Prelude.{
  ℕ, Bool, true, false, not, ◌&&◌, ◌||◌, Option, none, some, String, ltb, ◌==◌, text_comparable,
  if◌then◌else◌,
}
use squelch.Prelude.Int.{ℤ}
use squelch.Prelude.Text.{cut_prefix}
use squelch.Auth.Tokens.{TokenTracker, Claims, rejects}
use squelch.Sessions.{unix}

-- What the checks read of a request.
pub record Request : Type 0 where
  pub authorization : String
  pub session_cookie : String
  pub sec_fetch_site : String

-- What the Gin context is given.
pub record Identity : Type 0 where
  pub user_id : ℤ
  pub username : String
  pub role : String
  pub jti : String
  pub fam : String

-- The handlers after this one run, for someone or for nobody, or the request ends with a status.
pub data Outcome : Type 0 where
  next : Option Identity → Outcome
  abort : ℕ → Outcome

-- `applyClaimsToContext`
unfoldable pub apply_claims : Claims → Identity
apply_claims c = record {
  user_id = c.user_id;
  username = c.username;
  role = c.role;
  jti = c.id;
  fam = c.family_id;
}

-- `claims.AccountExp > 0 && time.Now().Unix() > claims.AccountExp`
abbrev pub account_over : ℕ → Claims → Bool
account_over now c = ltb 0 c.account_exp && ltb c.account_exp (unix now)

-- `strings.HasPrefix(header, "Bearer ")` and `strings.TrimPrefix(header, "Bearer ")`
abbrev pub bearer : Request → Option String
bearer req = cut_prefix "Bearer " req.authorization

unfoldable pub claims_valid : ℕ → Claims → TokenTracker → TokenTracker × Bool
claims_valid now claims t =
    let (t', gone) = rejects claims now now t in
    if gone then (t', false) else if account_over now claims then (t', false) else (t', true)

-- The values of `Sec-Fetch-Site` that a request from the same site has.
unfoldable pub same_site : String → Bool
same_site site = site == "" || site == "same-origin" || site == "same-site" || site == "none"

unfoldable pub require_admin : Option Identity → Outcome
require_admin none = abort 403
require_admin (some who) = if who.role == "admin" then next (some who) else abort 403

module _ (parse_token : String → Option Claims) where
  unfoldable pub jwt_auth : Request → ℕ → TokenTracker → TokenTracker × Outcome
  unfolding apply_claims
  jwt_auth req now t = elim (bearer req) [
    | none ↦ (t, abort 401)
    | some token ↦ elim (parse_token token) [
      | none ↦ (t, abort 401)
      | some claims ↦
          let (t', gone) = rejects claims now now t in
          if gone
          then (t', abort 401)
          else if account_over now claims
          then (t', abort 401)
          else (t', next (some (apply_claims claims)))
    ]
  ]

  unfoldable pub optional_jwt_auth : Request → ℕ → TokenTracker → TokenTracker × Outcome
  unfolding apply_claims
  optional_jwt_auth req now t = elim (bearer req) [
    | none ↦ (t, next none)
    | some token ↦ elim (parse_token token) [
      | none ↦ (t, next none)
      | some claims ↦
          let (t', gone) = rejects claims now now t in
          if gone
          then (t', next none)
          else if account_over now claims
          then (t', next none)
          else (t', next (some (apply_claims claims)))
    ]
  ]

  -- A token of the third middleware, which identifies or lets through.
  unfoldable pub identify : String → ℕ → TokenTracker → TokenTracker × Outcome
  unfolding claims_valid apply_claims
  identify token now t = elim (parse_token token) [
    | none ↦ (t, next none)
    | some claims ↦
        let (t', valid) = claims_valid now claims t in
        if valid then (t', next (some (apply_claims claims))) else (t', next none)
  ]

  unfoldable pub optional_jwt_or_session_auth : Request → ℕ → TokenTracker → TokenTracker × Outcome
  unfolding identify same_site
  optional_jwt_or_session_auth req now t = elim (bearer req) [
    | some token ↦ identify token now t
    | none ↦
        if req.session_cookie == "" || not (same_site req.sec_fetch_site)
        then (t, next none)
        else identify req.session_cookie now t
  ]

  -- `JWTAuth` and then `RequireAdmin`, as the group of the admin API's routes has them. The page
  -- /admin/docs and the socket /api/admin/ws are outside that group.
  unfoldable pub admin_auth : Request → ℕ → TokenTracker → TokenTracker × Outcome
  unfolding jwt_auth require_admin
  admin_auth req now t =
      let (t', outcome) = jwt_auth req now t in
      elim outcome [ abort status ↦ (t', abort status) | next who ↦ (t', require_admin who) ]
