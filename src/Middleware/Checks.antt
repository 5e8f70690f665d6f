-- ===== src/Middleware/Checks.antt =====
-- Whom a request is taken for.
use squelch.Prelude.{
  ℕ, ◌+◌, ◌≤◌, ◌<◌, ◌≡◌, true, false, not, ◌||◌, List, Option, none, some, String, ◌==◌,
  text_comparable, if◌then◌else◌, arith, ==_iff, Option-cases, inl, inr,
}
use squelch.Auth.Tokens.{
  TokenTracker, Claims, rejects, track, revoke_all_for_user, access_token_expiry,
}
use squelch.Auth.Tokens.Entries.{keeps_all}
use squelch.Auth.Tokens.Finality.{Call, run, Within}
use squelch.Auth.Tokens.Owners.{revoke_all-rejects}
use squelch.Middleware.{
  Request, Identity, Outcome, next, abort, apply_claims, account_over, bearer, claims_valid,
  same_site, require_admin, jwt_auth, optional_jwt_auth, identify, optional_jwt_or_session_auth,
  admin_auth,
}

-- The token that a request may be identified by: the header's, else the cookie's of a request from
-- the same site.
abbrev pub token_of : Request → Option String
token_of req = elim (bearer req) [
  | some token ↦ some token
  | none ↦
      if req.session_cookie == "" || not (same_site req.sec_fetch_site)
      then none
      else some req.session_cookie
]

-- One check for all: the claims that a token makes, if it is genuine, not rejected, and of an
-- account that has not expired.
abbrev pub identified :
    (String → Option Claims) → Option String → ℕ → TokenTracker → TokenTracker × Option Identity
identified parse none now t = (t, none)
identified parse (some token) now t = elim (parse token) [
  | none ↦ (t, none)
  | some claims ↦ (
    (rejects claims now now t).0,
    if (rejects claims now now t).1 || account_over now claims
        then none
        else some (apply_claims claims),
  )
]

-- Somebody is required,
abbrev pub required : TokenTracker × Option Identity → TokenTracker × Outcome
required (t, none) = (t, abort 401)
required (t, some who) = (t, next (some who))

-- or not.
abbrev pub allowed : TokenTracker × Option Identity → TokenTracker × Outcome
allowed (t, who) = (t, next who)

identify-identified :
    (parse : String → Option Claims) (token : String) (now : ℕ) (t : TokenTracker)
    → identify parse token now t ≡ allowed (identified parse (some token) now t)
unfolding identify claims_valid
identify-identified parse token now t = elim (Option-cases (parse token)) [
  | inl forged ↦ ground (arith, forged)
  | inr (claims, genuine) ↦ ground (arith, genuine)
]

-- The three middlewares make one and the same check: JWTAuth requires it of the header's token,
-- OptionalJWTAuth lets a request through without it, and OptionalJWTOrSessionAuth also takes the
-- cookie's token of a request from the same site that has none in the header.
pub one_check :
    (parse : String → Option Claims) (req : Request) (now : ℕ) (t : TokenTracker)
    → (jwt_auth parse req now t ≡ required (identified parse (bearer req) now t))
      × (optional_jwt_auth parse req now t ≡ allowed (identified parse (bearer req) now t))
      × (optional_jwt_or_session_auth parse req now t
          ≡ allowed (identified parse (token_of req) now t))
unfolding jwt_auth optional_jwt_auth optional_jwt_or_session_auth
one_check parse req now t = (
  elim (Option-cases (bearer req)) [
    | inl absent ↦ ground (arith, absent)
    | inr (token, given) ↦ elim (Option-cases (parse token)) [
      | inl forged ↦ ground (arith, given, forged)
      | inr (claims, genuine) ↦ ground (arith, given, genuine)
    ]
  ],
  elim (Option-cases (bearer req)) [
    | inl absent ↦ ground (arith, absent)
    | inr (token, given) ↦ elim (Option-cases (parse token)) [
      | inl forged ↦ ground (arith, given, forged)
      | inr (claims, genuine) ↦ ground (arith, given, genuine)
    ]
  ],
  elim (Option-cases (bearer req)) [
    | inl absent ↦ ground (arith, absent, identify-identified parse req.session_cookie now t)
    | inr (token, given) ↦ ground (arith, given, identify-identified parse token now t)
  ],
)

-- Once a user is signed out everywhere, an access token that the user was given before identifies
-- nobody until it expires, whatever happens to other tokens before and after, as long as no other
-- token has its id and its lifetime was no longer than that of an access token: JWTAuth answers
-- 401 to it in the header, and the two optional middlewares let the request through as anonymous,
-- whether the token is in the header or in the cookie.
pub signed_out :
    (parse : String → Option Claims) (token : String) (req : Request) (claims : Claims)
    (expiry from now : ℕ) (before after : List (ℕ × Call)) (t : TokenTracker)
    → token_of req ≡ some token
    → parse token ≡ some claims
    → keeps_all claims.id expiry t.user_tokens ≡ true
    → expiry ≤ from + access_token_expiry
    → Within claims.id from expiry before
    → Within claims.id from expiry after
    → now < expiry
    → let issued = track claims.user_id claims.id expiry from t in
      let t' = run after (revoke_all_for_user claims.user_id (run before issued)) in
      ((jwt_auth parse req now t').1 ≡ abort 401)
      × ((optional_jwt_auth parse req now t').1 ≡ next none)
      × ((optional_jwt_or_session_auth parse req now t').1 ≡ next none)
signed_out parse token req claims expiry from now before after t carried genuine unused short wb wa
      early =
    let issued = track claims.user_id claims.id expiry from t in
    let t' = run after (revoke_all_for_user claims.user_id (run before issued)) in
    let gone =
      revoke_all-rejects claims expiry from now now before after t unused short wb wa early in
    let (required', allowed', cookie') = one_check parse req now t' in
    elim (Option-cases (bearer req)) [
      | inl absent ↦ ground (arith, absent, required', allowed', cookie', carried, genuine, gone)
      | inr (given, found) ↦
          ground (arith, found, required', allowed', cookie', carried, genuine, gone)
    ]

-- `JWTAuth` and then `RequireAdmin`, the chain that guards the group of the admin API's routes, let
-- a request pass only if its header carries a genuine access token that is not rejected, of an
-- account that has not expired and with the role of an admin. The admin's documentation page and
-- its socket have guards of their own, which this is not about.
pub admin_only :
    (parse : String → Option Claims) (req : Request) (now : ℕ) (t : TokenTracker)
    {who : Option Identity}
    → (admin_auth parse req now t).1 ≡ next who
    → (token : String) × (claims : Claims) × (bearer req ≡ some token)
      × (parse token ≡ some claims)
      × ((rejects claims now now t).1 ≡ false)
      × (account_over now claims ≡ false)
      × (claims.role ≡ "admin")
      × (who ≡ some (apply_claims claims))
unfolding admin_auth jwt_auth require_admin apply_claims
admin_only parse req now t h = elim (Option-cases (bearer req)) [
  | inl absent ↦ absurd (ground (arith, absent, h))
  | inr (token, given) ↦ elim (Option-cases (parse token)) [
    | inl forged ↦ absurd (ground (arith, given, forged, h))
    | inr (claims, genuine) ↦ (
      token,
      claims,
      given,
      genuine,
      ground (arith, given, genuine, h),
      ground (arith, given, genuine, h),
      ground (arith, given, genuine, h, ==_iff claims.role "admin"),
      ground (arith, given, genuine, h, ==_iff claims.role "admin"),
    )
  ]
]
