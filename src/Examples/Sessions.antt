-- ===== src/Examples/Sessions.antt =====
-- One account that signs in, refreshes, signs out and has a token stolen.
use squelch.Prelude.{
  ℕ, ◌+◌, ◌*◌, ◌≤◌, ◌≡◌, refl, ◌≢◌, true, false, List, [], ◌∷◌, none, some, nat_comparable,
  int_comparable, text_comparable,
}
use squelch.Prelude.Int.{pos}
use squelch.Prelude.Dict.{lookup}
use squelch.Auth.RateLimiter.{new_rate_limiter}
use squelch.Auth.ReplayCache.{new_replay_cache, refresh_replay_grace, get}
use squelch.Auth.Tokens.{new_token_tracker}
use squelch.RefreshTokens.{
  RefreshToken, get_refresh_token_by_hash, find_row, rows_where, revoke_where,
  delete_expired_refresh_tokens, revoke_refresh_token_family,
}
use squelch.Sessions.{
  User, World, Supply, LoginRequest, presented, post_refresh, unix_epoch, second, post_logout,
  purge, replay_or_theft,
}
use squelch.Sessions.Requests.{
  Outside, Request, logs_in, refreshes, logs_out, purges, run, serve, live,
}
use squelch.Sessions.Families.{one_live_token, logout_final, theft_final}

abbrev morning : ℕ
morning = (unix_epoch + 1_000_000) * second

abbrev ann : User
ann = record {
  id = pos 7;
  username = "ann";
  role = "listener";
  password_hash = "secret";
  disabled = false;
  expiration = none;
  password_need_change = false;
}

-- Hashes that keep the text, and one account.
abbrev shop : Outside
shop = record {
  users = λ _. some ann;
  by_name = λ _. some ann;
  hash_token = λ raw. raw;
  check_password = λ password hash. true;
  size = λ _. 8;
}

abbrev supply : Supply
supply = record {
  access = "access";
  jti = "jti";
  raw = "second";
  family = "phone";
  signs = true;
  random = true;
  counts = true;
  revokes = true;
  creates = true;
}

-- The row of a sign-in a moment ago.
abbrev row : RefreshToken
row = record {
  id = 1;
  user_id = pos 7;
  token_hash = "first";
  family_id = "phone";
  expires_at = 5_000_000;
  revoked = false;
  created_at = 1;
  native = false;
  signed_in_at = some 1;
}

abbrev empty : World
empty = record {
  table = record { rows = []; next_id = 1 };
  tokens = new_token_tracker 0;
  replay = new_replay_cache refresh_replay_grace;
  limiter = new_rate_limiter;
  ended = [];
}

abbrev signed_in : World
signed_in = record empty { table = record { rows = row ∷ []; next_id = 2 } }

abbrev request : LoginRequest
request = record { username = "ann"; password = "secret"; remember_me = false; native = false }

abbrev afterwards : List (Outside × ℕ × Request)
afterwards = (shop, morning, refreshes "second" "" supply) ∷ (shop, morning + 1, purges) ∷ []

one_live_token_example :
    live "phone" (run afterwards (serve shop morning (logs_in "ip" (some request) supply) empty))
    ≤ 1
one_live_token_example =
    one_live_token shop morning "ip" (some request) supply afterwards empty refl (tt, (tt, tt))
      (refl, (tt, tt))

first_given : (presented "first" "").0 ≢ ""
unfolding presented
first_given h = cc

logout_final_example :
    let w' = run afterwards (serve shop morning (logs_out "jti" "first" "" supply) signed_in) in
    let reply = (post_refresh shop.hash_token shop.users "first" "" supply (morning + 2) w').1 in
    (reply.status ≡ 401) × (reply.token ≡ none) × (reply.refresh_token ≡ none)
unfolding presented get_refresh_token_by_hash find_row get lookup new_replay_cache post_logout
    post_refresh purge delete_expired_refresh_tokens rows_where revoke_refresh_token_family
    revoke_where
logout_final_example =
    logout_final shop shop "jti" "first" "" supply morning signed_in row afterwards "first" ""
      supply (morning + 2) (record row { revoked = true }) first_given refl refl (tt, (tt, tt))
      (refl, refl, refl)

-- The token was used, and the reply to its use is no longer cached.
abbrev used : World
used = record signed_in {
  table = record { rows = record row { revoked = true } ∷ []; next_id = 2 };
}

theft_final_example :
    let w' = run afterwards (serve shop morning (refreshes "first" "" supply) used) in
    let reply = (post_refresh shop.hash_token shop.users "first" "" supply (morning + 2) w').1 in
    (reply.status ≡ 401) × (reply.token ≡ none) × (reply.refresh_token ≡ none)
unfolding presented get_refresh_token_by_hash find_row get lookup new_replay_cache replay_or_theft
    post_refresh purge delete_expired_refresh_tokens rows_where revoke_refresh_token_family
    revoke_where
theft_final_example =
    theft_final shop shop "first" "" supply morning used (record row { revoked = true }) afterwards
      "first" "" supply (morning + 2) (record row { revoked = true }) first_given refl refl refl
      refl (tt, (tt, tt)) (refl, refl, refl)
