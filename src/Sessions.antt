-- ===== src/Sessions.antt =====
-- backend/internal/handler/auth/auth.go, from sign-in to sign-out, with the sign-outs of
-- backend/internal/admin/connections.go: the refresh-token table, the token tracker, the replay cache and
-- the rate limiter together. A request is one step at one instant, in nanoseconds since Go's zero
-- time. `PostRefresh` reads the token's row and revokes it in two statements without a transaction,
-- so that this is how it acts only while no other request for the same token runs. Passwords,
-- signing, random texts and hashes are parameters; the log is left out.

pub mod Requests
pub mod Families
pub mod Replies
use squelch.Prelude.{
  ℕ, ◌+◌, ◌-◌, ◌*◌, ◌/◌, Bool, true, false, not, ◌&&◌, ◌||◌, List, [], ◌∷◌, ◌++◌, Option, none,
  some, String, ltb, leb, ◌==◌, text_comparable, nat_comparable, int_comparable, if◌then◌else◌,
  length,
}
use squelch.Prelude.Int.{ℤ, pos, negsuc}
use squelch.Auth.RateLimiter.{RateLimiter, try_begin, end_attempt, record_failure, reset}
use squelch.Auth.ReplayCache.{ReplayCache, ReplayCacheEntry, get, put}
use squelch.Auth.Tokens.{
  TokenTracker, track, revoke, revoke_family, revoke_all_for_user, access_token_expiry,
  max_refresh_families,
}
use squelch.RefreshTokens.{
  RefreshToken, RefreshTokens, CreateRefreshTokenParams, create_refresh_token,
  get_refresh_token_by_hash, revoke_refresh_token, revoke_refresh_token_family,
  revoke_all_refresh_tokens_for_user, delete_expired_refresh_tokens,
  count_active_refresh_token_families, get_oldest_active_refresh_token_family,
  get_active_session_owner,
}

abbrev pub second : ℕ
second = 1_000_000_000

abbrev pub refresh_token_expiry : ℕ
refresh_token_expiry = 30 * 24 * 60 * 60 * second

-- Seconds from Go's zero time to 1970.
abbrev pub unix_epoch : ℕ
unix_epoch = 62_135_596_800

abbrev pub unix : ℕ → ℕ
unix now = now / second - unix_epoch

pub record User : Type 0 where
  pub id : ℤ
  pub username : String
  pub role : String
  pub password_hash : String
  pub disabled : Bool
  pub expiration : Option ℕ
  pub password_need_change : Bool

-- What a reply does to a cookie: a life of 0 is a session cookie.
pub data Cookie : Type 0 where
  untouched cleared : Cookie
  written : String → ℕ → Cookie

pub record Reply : Type 0 where
  pub status : ℕ
  pub token : Option String
  pub refresh_token : Option String
  pub refresh_cookie : Cookie
  pub session_cookie : Cookie

-- What the hub is told.
pub data Ended : Type 0 where
  of_user : ℤ → Ended
  of_jti : String → Ended
  of_family : String → Ended

pub record World : Type 0 where
  pub table : RefreshTokens
  pub tokens : TokenTracker
  pub replay : ReplayCache
  pub limiter : RateLimiter
  pub ended : List Ended

-- What a request gets from outside: a signed token with its id, a random refresh token, a new
-- family id, and whether signing, the random source and each statement that writes succeed.
pub record Supply : Type 0 where
  pub access : String
  pub jti : String
  pub raw : String
  pub family : String
  pub signs : Bool
  pub random : Bool
  pub counts : Bool
  pub revokes : Bool
  pub creates : Bool

unfoldable pub refusal : ℕ → Reply
refusal status = record {
  status = status;
  token = none;
  refresh_token = none;
  refresh_cookie = untouched;
  session_cookie = untouched;
}

unfoldable pub refusal_clearing : ℕ → Reply
unfolding refusal
refusal_clearing status = record (refusal status) { refresh_cookie = cleared }

-- A statement that failed changes nothing, and its error is ignored.
abbrev pub attempt : Bool → (RefreshTokens → RefreshTokens) → RefreshTokens → RefreshTokens
attempt works f t = if works then f t else t

-- `user.Expiration.Valid && user.Expiration.Int64 > 0 && now > user.Expiration.Int64`
unfoldable pub account_expired : ℕ → User → Bool
account_expired now u = elim (u.expiration) [
  | none ↦ false
  | some at ↦ ltb 0 at && ltb at (unix now)
]

-- `!native`: the cookies of a browser. `lifetime` is in seconds.
unfoldable pub granted : Bool → String → String → ℕ → Reply
granted via_body access raw lifetime =
    if via_body
    then record {
      status = 200;
      token = some access;
      refresh_token = some raw;
      refresh_cookie = untouched;
      session_cookie = untouched;
    }
    else record {
      status = 200;
      token = some access;
      refresh_token = none;
      refresh_cookie = written raw lifetime;
      session_cookie = written access (access_token_expiry / second);
    }

-- Which refresh token a request carries, and whether it came in the body. The cookie wins.
unfoldable pub presented : String → String → String × Bool
presented cookie body = if cookie == "" then (body, not (body == "")) else (cookie, false)

abbrev pub rotated_row : String → RefreshToken → ℤ → Bool → ℕ → CreateRefreshTokenParams
rotated_row hash rt user via_body now = record {
  user_id = user;
  token_hash = hash;
  family_id = rt.family_id;
  expires_at = unix (now + refresh_token_expiry);
  created_at = unix now;
  native = via_body;
  signed_in_at = rt.signed_in_at;
}

abbrev pub cache_entry : Supply → User → String → ReplayCacheEntry
cache_entry s u family = record {
  access_token = s.access;
  refresh_raw = s.raw;
  user_id = u.id;
  username = u.username;
  role = u.role;
  family_id = family;
  expires_at = 0;
}

module _ (hash_token : String → String) where
  -- From the new access token on.
  unfoldable pub mint : RefreshToken → User → Bool → Supply → ℕ → String → World → World × Reply
  unfolding refusal granted
  mint rt u via_body s now hash w =
      let tracked = record w {
        tokens = track u.id s.jti (now + access_token_expiry) now w.tokens;
      } in
      if not s.signs
      then (w, refusal 500)
      else if not s.random
      then (tracked, refusal 500)
      else if not s.creates
      then (tracked, refusal 500)
      else (
        record tracked {
          table =
              create_refresh_token (rotated_row (hash_token s.raw) rt u.id via_body now) w.table;
          replay = put hash (cache_entry s u rt.family_id) now now w.replay;
        },
        granted via_body s.access s.raw (refresh_token_expiry / second),
      )

  -- The use of a token that was found and is not revoked.
  unfoldable pub rotate :
      (ℤ → Option User) → RefreshToken → Bool → Supply → ℕ → String → World → World × Reply
  unfolding mint refusal_clearing account_expired
  rotate users rt via_body s now hash w =
      let used = record w { table = attempt s.revokes (revoke_refresh_token rt.id) w.table } in
      if ltb rt.expires_at (unix now)
      then (used, refusal_clearing 401)
      else elim (users rt.user_id) [
        | none ↦ (used, refusal_clearing 401)
        | some u ↦
            if u.disabled || account_expired now u
            then (used, refusal_clearing 401)
            else mint rt u via_body s now hash used
      ]

  -- The use of a token that was revoked: the answer of a rotation a moment ago, or theft.
  unfoldable pub replay_or_theft : RefreshToken → Bool → Supply → ℕ → String → World → World × Reply
  unfolding refusal_clearing granted
  replay_or_theft rt via_body s now hash w =
      let (replay, cached) = get hash now w.replay in
      elim cached [
        | some e ↦ (
          record w { replay = replay },
          granted via_body e.access_token e.refresh_raw (refresh_token_expiry / second),
        )
        | none ↦ (
          record w {
            replay = replay;
            table = attempt s.revokes (revoke_refresh_token_family rt.family_id) w.table;
          },
          refusal_clearing 401,
        )
      ]

  -- `PostRefresh`, with no other request between the query that finds the row and the statement
  -- that revokes it.
  unfoldable pub post_refresh :
      (ℤ → Option User) → String → String → Supply → ℕ → World → World × Reply
  unfolding presented rotate replay_or_theft refusal refusal_clearing
  post_refresh users cookie body s now w =
      let (raw, via_body) = presented cookie body in
      let hash = hash_token raw in
      if raw == "" then (w, refusal 401) else elim (get_refresh_token_by_hash hash w.table) [
        | none ↦ (w, refusal_clearing 401)
        | some rt ↦
            if rt.revoked
            then replay_or_theft rt via_body s now hash w
            else rotate users rt via_body s now hash w
      ]

  -- `PostLogout`, of the session whose token has the id.
  unfoldable pub post_logout : String → String → String → Supply → ℕ → World → World × Reply
  unfolding presented refusal
  post_logout jti cookie body s now w =
      let out = record w { tokens = revoke jti now w.tokens; ended = w.ended ++ of_jti jti ∷ [] } in
      let raw = (presented cookie body).0 in
      let reply = record (refusal 200) { refresh_cookie = cleared; session_cookie = cleared } in
      if raw == ""
      then (out, reply)
      else elim (get_refresh_token_by_hash (hash_token raw) w.table) [
        | none ↦ (out, reply)
        | some rt ↦ (
          record out {
            table = attempt s.revokes (revoke_refresh_token_family rt.family_id) w.table;
          },
          reply,
        )
      ]

-- The body of a sign-in, where an absent `rememberMe` is true, and whether its header asks for
-- tokens in the body.
pub record LoginRequest : Type 0 where
  pub username : String
  pub password : String
  pub remember_me : Bool
  pub native : Bool

abbrev failed : String → ℕ → World → World × Reply
failed ip now w = (record w { limiter = (record_failure ip now w.limiter).0 }, refusal 401)

-- Room for one more device: the family that was used longest ago goes.
unfoldable pub make_room : ℤ → ℕ → Bool → Bool → RefreshTokens → RefreshTokens
make_room user now counts revokes t =
    if counts && leb max_refresh_families (count_active_refresh_token_families user now t)
    then elim (get_oldest_active_refresh_token_family user now t) [
      | none ↦ t
      | some family ↦ attempt revokes (revoke_refresh_token_family family) t
    ]
    else t

abbrev pub first_row : String → Supply → ℤ → Bool → ℕ → CreateRefreshTokenParams
first_row hash s user native now = record {
  user_id = user;
  token_hash = hash;
  family_id = s.family;
  expires_at = unix (now + refresh_token_expiry);
  created_at = unix now;
  native = native;
  signed_in_at = some (unix now);
}

module _ (hash_token : String → String) (check_password : String → String → Bool) where
  -- From `h.rateLimiter.Reset(ip)` on.
  unfoldable pub sign_in : String → LoginRequest → User → Supply → ℕ → World → World × Reply
  unfolding make_room refusal granted
  sign_in ip req u s now w =
      let fresh = record w { limiter = reset ip w.limiter } in
      let tracked = record fresh {
        tokens = track u.id s.jti (now + access_token_expiry) now w.tokens;
      } in
      let room = make_room u.id (unix now) s.counts s.revokes w.table in
      if not s.signs
      then (fresh, refusal 500)
      else if not s.random
      then (tracked, refusal 500)
      else if not s.creates
      then (record tracked { table = room }, refusal 500)
      else (
        record tracked {
          table = create_refresh_token (first_row (hash_token s.raw) s u.id req.native now) room;
        },
        granted req.native s.access s.raw
            (if req.remember_me then refresh_token_expiry / second else 0),
      )

  -- What happens between `TryBegin` and the deferred `End`.
  unfoldable pub attempt_login :
      (String → Option User) → String → LoginRequest → Supply → ℕ → World → World × Reply
  unfolding sign_in refusal account_expired
  attempt_login users ip req s now w = elim (users req.username) [
    | none ↦ failed ip now w
    | some u ↦
        if u.disabled || account_expired now u || not (check_password req.password u.password_hash)
        then failed ip now w
        else sign_in ip req u s now w
  ]

  -- `PostLogin`; `none` is a body that cannot be read.
  unfoldable pub post_login :
      (String → Option User) → String → Option LoginRequest → Supply → ℕ → World → World × Reply
  unfolding attempt_login refusal
  post_login users ip none s now w = (w, refusal 400)
  post_login users ip (some req) s now w =
      if req.username == "" || req.password == ""
      then (w, refusal 400)
      else let (limiter, admitted) = try_begin ip now w.limiter in
        let begun = record w { limiter = limiter } in
        let (w', reply) = attempt_login users ip req s now begun in
        if admitted
        then (record w' { limiter = end_attempt ip w'.limiter }, reply)
        else (begun, refusal 429)

-- What `PutPassword` does once the new hash is stored: every session of the user ends.
unfoldable pub sign_out_everywhere : ℤ → Supply → World → World
sign_out_everywhere user s w = record w {
  table = attempt s.revokes (revoke_all_refresh_tokens_for_user user) w.table;
  tokens = revoke_all_for_user user w.tokens;
  ended = w.ended ++ of_user user ∷ [];
}

abbrev pub min_password : ℕ
min_password = 8

abbrev pub max_password : ℕ
max_password = 128

-- `PutPassword`: the lengths are those of the texts in bytes. The second part is the password to
-- store; storing it works if `creates` says so.
unfoldable pub put_password :
    (String → ℕ)
    → (String → String → Bool)
    → (ℤ → Option User)
    → ℤ
    → Option (String × String)
    → Supply
    → World
    → World × ℕ
unfolding sign_out_everywhere
put_password size check_password users user none s w = (w, 400)
put_password size check_password users user (some (current, fresh)) s w =
    if current == ""
      || fresh == ""
      || ltb (size fresh) min_password
      || ltb max_password (size fresh)
    then (w, 400)
    else elim (users user) [
      | none ↦ (w, 500)
      | some u ↦
          if not (check_password current u.password_hash)
          then (w, 401)
          else if not s.random || not s.creates
          then (w, 500)
          else (sign_out_everywhere user s w, 200)
    ]

abbrev pub is_known : (ℤ → Option User) → ℤ → Bool
is_known users id = elim (users id) [ none ↦ false | some u ↦ true ]

-- `SessionsRevoke` of the admin. An error of the statement that revokes ends it.
unfoldable pub sessions_revoke : (ℤ → Option User) → String → ℕ → Supply → World → World
sessions_revoke users family now s w =
    if family == ""
    then w
    else elim (get_active_session_owner (is_known users) family (unix now) w.table) [
      | none ↦ w
      | some owner ↦ if not s.revokes then w else record w {
        table = revoke_refresh_token_family family w.table;
        tokens = revoke_family family now w.tokens;
        ended = w.ended ++ of_family family ∷ [];
      }
    ]

-- `req.ID > 0`
abbrev pub is_id : ℤ → Bool
is_id (pos n) = ltb 0 n
is_id (negsuc n) = false

-- `UsersSignout` of the admin. Here too an error of the statement ends it.
unfoldable pub users_signout : (ℤ → Option User) → ℤ → Supply → World → World
unfolding sign_out_everywhere
users_signout users user s w =
    if not (is_id user) || not (is_known users user) || not s.revokes
    then w
    else sign_out_everywhere user s w

-- The hourly purge, which keeps revoked rows until they expire.
unfoldable pub purge : ℕ → World → World
purge now w = record w { table = delete_expired_refresh_tokens (unix now) w.table }
