-- ===== src/Examples/Requests.antt =====
-- Requests with an access token, and uploads with an API key.
use squelch.Prelude.{
  ℕ, ◌+◌, ◌≡◌, refl, ◌≢◌, false, List, [], ◌∷◌, Option, none, some, String, arith, ltb,
  if◌then◌else◌, int_comparable, text_comparable, int_beq, ◌==◌,
}
use squelch.Prelude.Int.{ℤ, pos}
use squelch.Prelude.Dict.{lookup}
use squelch.Prelude.Text.{cut_prefix}
use squelch.Auth.Tokens.{
  Claims, TokenTracker, new_token_tracker, track, revoke_all_for_user, rejects, is_revoked,
  access_token_expiry,
}
use squelch.Auth.Tokens.Finality.{Call, tracks, checks, run, Within}
use squelch.Middleware.{
  Request, next, abort, bearer, jwt_auth, optional_jwt_auth, optional_jwt_or_session_auth,
  admin_auth, account_over, apply_claims, same_site, require_admin,
}
use squelch.Middleware.Checks.{
  token_of, identified, required, allowed, one_check, signed_out, admin_only,
}
use squelch.Middleware.ApiKeys.{ApiKey, find_key, resolve, api_keys_rotate, rotation_grace}
use squelch.Middleware.ApiKeys.Rotation.{id_of, old_key_lasts}

abbrev issued : ℕ
issued = 5_000_000_000

abbrev expiry : ℕ
expiry = issued + access_token_expiry

abbrev phone : Claims
phone = record {
  user_id = pos 7;
  username = "ann";
  role = "admin";
  account_exp = 0;
  family_id = "";
  id = "first";
  issued_at = some 5;
}

-- One genuine token.
abbrev parse : String → Option Claims
parse token = if token == "secret" then some phone else none

abbrev in_header : Request
in_header = record { authorization = "Bearer secret"; session_cookie = ""; sec_fetch_site = "" }

abbrev in_cookie : Request
in_cookie = record { authorization = ""; session_cookie = "secret"; sec_fetch_site = "same-origin" }

abbrev empty : TokenTracker
empty = new_token_tracker 0

one_check_example :
    (jwt_auth parse in_cookie issued empty
      ≡ required (identified parse (bearer in_cookie) issued empty))
    × (optional_jwt_auth parse in_cookie issued empty
        ≡ allowed (identified parse (bearer in_cookie) issued empty))
    × (optional_jwt_or_session_auth parse in_cookie issued empty
        ≡ allowed (identified parse (token_of in_cookie) issued empty))
one_check_example = one_check parse in_cookie issued empty

another : ◌≢◌ {A = String} "second" "first"
another h = cc

abbrev meanwhile : List (ℕ × Call)
meanwhile =
    (issued + 1, tracks (pos 7) "second" (issued + 1 + access_token_expiry))
    ∷ (issued + 2, checks "first")
    ∷ []

meanwhile-Within : Within "first" issued expiry meanwhile
meanwhile-Within = ((omega arith, omega arith, another), ((omega arith, omega arith, tt), tt))

signed_out_example :
    let held = track (pos 7) "first" expiry issued empty in
    let t' = run meanwhile (revoke_all_for_user (pos 7) (run meanwhile held)) in
    ((jwt_auth parse in_cookie (issued + 3) t').1 ≡ abort 401)
    × ((optional_jwt_auth parse in_cookie (issued + 3) t').1 ≡ next none)
    × ((optional_jwt_or_session_auth parse in_cookie (issued + 3) t').1 ≡ next none)
unfolding new_token_tracker cut_prefix same_site
signed_out_example =
    signed_out parse "secret" in_cookie phone expiry issued (issued + 3) meanwhile meanwhile empty
      refl refl refl (omega arith) meanwhile-Within meanwhile-Within (omega arith)

admin_only_example :
    (token : String) × (claims : Claims) × (bearer in_header ≡ some token)
    × (parse token ≡ some claims)
    × ((rejects claims issued issued empty).1 ≡ false)
    × (account_over issued claims ≡ false)
    × (claims.role ≡ "admin")
    × (some (apply_claims phone) ≡ some (apply_claims claims))
unfolding admin_auth jwt_auth cut_prefix new_token_tracker apply_claims rejects is_revoked
    require_admin lookup
admin_only_example = admin_only parse in_header issued empty {who = some (apply_claims phone)} refl

abbrev recorder : ApiKey
recorder = record {
  id = pos 4;
  key = "first";
  disabled = false;
  systems_json = record { text = ""; valid = false };
  ident = none;
  call_rate_limit = none;
  previous_key = none;
  previous_key_expires_at = none;
}

abbrev plain : String → String
plain s = s

old_key_lasts_example :
    let keys' = (api_keys_rotate plain (pos 4) "second" 1000 (recorder ∷ [])).0 in
    (id_of (resolve "second" 2000 keys') ≡ some (pos 4))
    × (id_of (resolve "first" 2000 keys')
        ≡ (if ltb 2000 (1000 + rotation_grace) then some (pos 4) else none))
unfolding find_key int_beq
old_key_lasts_example =
    old_key_lasts plain (pos 4) "second" 1000 2000 (recorder ∷ []) recorder refl refl another refl
      refl

abbrev uses : List (ℤ × String × ℕ)
uses = (pos 4, "10.0.0.1", 100) ∷ (pos 4, "10.0.0.1", 130) ∷ (pos 5, "10.0.0.2", 140) ∷ []
