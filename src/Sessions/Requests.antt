-- ===== src/Sessions/Requests.antt =====
-- The requests that change sessions, and what each does to the usable rows of a family.
use squelch.Prelude.{
  ℕ, suc, ◌+◌, ◌≤◌, ◌≡◌, ◌≢◌, ◌⊎◌, Bool, true, false, List, [], ◌∷◌, Option, none, some, String,
  ◌==◌, text_comparable, nat_comparable, int_comparable, if◌then◌else◌, arith, ==_iff, Bool-cases,
  Option-cases, inl, inr,
}
use squelch.Prelude.Int.{ℤ}
use squelch.Auth.ReplayCache.{get}
use squelch.Auth.RateLimiter.{try_begin}
use squelch.RefreshTokens.{
  RefreshToken, RefreshTokens, CreateRefreshTokenParams, create_refresh_token,
  get_refresh_token_by_hash, revoke_refresh_token, revoke_refresh_token_family,
  revoke_all_refresh_tokens_for_user, delete_expired_refresh_tokens, new_row,
  get_oldest_active_refresh_token_family, get_active_session_owner,
}
use squelch.RefreshTokens.Rows.{
  live_rows, live_rows-append, live_rows-revoke_where, live_rows-rows_where, find_row-live,
}
use squelch.Sessions.{
  User, World, Supply, LoginRequest, attempt, mint, rotate, replay_or_theft, post_refresh,
  post_logout, presented, make_room, sign_in, attempt_login, post_login, put_password,
  sessions_revoke, users_signout, is_known, purge, rotated_row, first_row, unix,
}

abbrev pub live : String → World → ℕ
live family w = live_rows family w.table.rows

pub data Request : Type 0 where
  logs_in : String → Option LoginRequest → Supply → Request
  refreshes : String → String → Supply → Request
  logs_out : String → String → String → Supply → Request
  changes_password : ℤ → Option (String × String) → Supply → Request
  admin_revokes : String → Supply → Request
  admin_signs_out : ℤ → Supply → Request
  purges : Request

-- What the server finds outside: the accounts at the time, and the hashes.
pub record Outside : Type 0 where
  pub users : ℤ → Option User
  pub by_name : String → Option User
  pub hash_token : String → String
  pub check_password : String → String → Bool
  pub size : String → ℕ

abbrev pub serve : Outside → ℕ → Request → World → World
serve o now (logs_in ip req s) w =
    (post_login o.hash_token o.check_password o.by_name ip req s now w).0
serve o now (refreshes cookie body s) w = (post_refresh o.hash_token o.users cookie body s now w).0
serve o now (logs_out jti cookie body s) w = (post_logout o.hash_token jti cookie body s now w).0
serve o now (changes_password user texts s) w =
    (put_password o.size o.check_password o.users user texts s w).0
serve o now (admin_revokes family s) w = sessions_revoke o.users family now s w
serve o now (admin_signs_out user s) w = users_signout o.users user s w
serve o now purges w = purge now w

-- The accounts may change from one request to the next.
abbrev pub run : List (Outside × ℕ × Request) → World → World
run [] w = w
run ((o, now, r) ∷ rs) w = run rs (serve o now r w)

-- The family of a new sign-in is not this one.
abbrev pub Avoids : String → Request → Type 0
Avoids family (logs_in ip req s) = s.family ≢ family
Avoids family _ = Unit

live-attempt_family :
    (family other : String) (works : Bool) (t : RefreshTokens)
    → live_rows family (attempt works (revoke_refresh_token_family other) t).rows
      ≤ live_rows family t.rows
unfolding revoke_refresh_token_family
live-attempt_family family other works t =
    ground (arith, live_rows-revoke_where family (λ r. r.family_id == other) t.rows)

live-attempt_token :
    (family : String) (id : ℕ) (works : Bool) (t : RefreshTokens)
    → live_rows family (attempt works (revoke_refresh_token id) t).rows ≤ live_rows family t.rows
unfolding revoke_refresh_token
live-attempt_token family id works t =
    ground (arith, live_rows-revoke_where family (λ r. r.id == id) t.rows)

live-attempt_user :
    (family : String) (user : ℤ) (works : Bool) (t : RefreshTokens)
    → live_rows family (attempt works (revoke_all_refresh_tokens_for_user user) t).rows
      ≤ live_rows family t.rows
unfolding revoke_all_refresh_tokens_for_user
live-attempt_user family user works t =
    ground (arith, live_rows-revoke_where family (λ r. r.user_id == user) t.rows)

-- A sign-in adds a usable row to its own new family only.
live-make_room :
    (family : String) (user : ℤ) (now : ℕ) (counts revokes : Bool) (t : RefreshTokens)
    → live_rows family (make_room user now counts revokes t).rows ≤ live_rows family t.rows
unfolding make_room
live-make_room family user now counts revokes t =
    elim (Option-cases (get_oldest_active_refresh_token_family user now t)) [
      | inl nobody ↦ ground (arith, nobody)
      | inr (oldest, found) ↦ ground (arith, found, live-attempt_family family oldest revokes t)
    ]

live-create :
    (family : String) (p : CreateRefreshTokenParams) (t : RefreshTokens)
    → live_rows family (create_refresh_token p t).rows
      ≡ live_rows family t.rows + (if p.family_id == family then 1 else 0)
unfolding create_refresh_token
live-create family p t = ground (arith, live_rows-append family t.rows (new_row t.next_id p))

-- A new token of the family is one usable row more.
live-mint :
    (o : Outside) (family : String) (rt : RefreshToken) (u : User) (via_body : Bool) (s : Supply)
    (now : ℕ) (hash : String) (w : World)
    → live family (mint o.hash_token rt u via_body s now hash w).0
      ≤ live family w + (if rt.family_id == family then 1 else 0)
unfolding mint
live-mint o family rt u via_body s now hash w =
    ground
      (arith, live-create family (rotated_row (o.hash_token s.raw) rt u.id via_body now) w.table)

-- A rotation, whatever comes of it: the token is used up, and at most one of its family comes.
live-rotate :
    (o : Outside) (family : String) (rt : RefreshToken) (via_body : Bool) (s : Supply) (now : ℕ)
    (hash : String) (w : World)
    → live family (rotate o.hash_token o.users rt via_body s now hash w).0
      ≤ live_rows family (attempt s.revokes (revoke_refresh_token rt.id) w.table).rows
        + (if rt.family_id == family then 1 else 0)
unfolding rotate
live-rotate o family rt via_body s now hash w =
    let used = record w { table = attempt s.revokes (revoke_refresh_token rt.id) w.table } in
    elim (Option-cases (o.users rt.user_id)) [
      | inl gone ↦ ground (arith, gone)
      | inr (u, found) ↦ ground (arith, found, live-mint o family rt u via_body s now hash used)
    ]

live-replay_or_theft :
    (o : Outside) (family : String) (rt : RefreshToken) (via_body : Bool) (s : Supply) (now : ℕ)
    (hash : String) (w : World)
    → live family (replay_or_theft o.hash_token rt via_body s now hash w).0 ≤ live family w
unfolding replay_or_theft
live-replay_or_theft o family rt via_body s now hash w =
    elim (Option-cases ((get hash now w.replay).1)) [
      | inl none' ↦ ground (arith, none', live-attempt_family family rt.family_id s.revokes w.table)
      | inr (e, cached) ↦ ground (arith, cached)
    ]

-- A token that is found and not revoked is a usable row, and using it up takes one away.
pub found_live :
    (o : Outside) (raw : String) (w : World) {rt : RefreshToken}
    → get_refresh_token_by_hash (o.hash_token raw) w.table ≡ some rt
    → rt.revoked ≡ false
    → suc (live_rows rt.family_id (revoke_refresh_token rt.id w.table).rows) ≤ live rt.family_id w
unfolding get_refresh_token_by_hash revoke_refresh_token
found_live o raw w e h = find_row-live (λ r. r.token_hash == o.hash_token raw) w.table.rows e h

-- A refresh on a family that has no usable row gives it none, and one whose statements work never
-- raises the number of a family's usable rows.
pub live-post_refresh :
    (o : Outside) (family cookie body : String) (s : Supply) (now : ℕ) (w : World)
    → (live family w ≡ 0) ⊎ (s.revokes ≡ true)
    → live family (post_refresh o.hash_token o.users cookie body s now w).0 ≤ live family w
unfolding post_refresh
live-post_refresh o family cookie body s now w h =
    let (raw, via_body) = presented cookie body in
    let hash = o.hash_token raw in
    elim (Option-cases (get_refresh_token_by_hash hash w.table)) [
      | inl unknown ↦ ground (arith, unknown)
      | inr (rt, found) ↦ elim (Bool-cases (rt.revoked)) [
        | inl dead ↦
            ground (arith, found, dead, live-replay_or_theft o family rt via_body s now hash w)
        | inr alive ↦ ground (
          arith,
          found,
          alive,
          h,
          ==_iff rt.family_id family,
          found_live o raw w {rt = rt} found alive,
          live-attempt_token family rt.id s.revokes w.table,
          live-rotate o family rt via_body s now hash w,
        )
      ]
    ]

live-attempt_login :
    (o : Outside) (family ip : String) (req : LoginRequest) (s : Supply) (now : ℕ) (w : World)
    → live family (attempt_login o.hash_token o.check_password o.by_name ip req s now w).0
      ≤ live family w + (if s.family == family then 1 else 0)
unfolding attempt_login sign_in
live-attempt_login o family ip req s now w = elim (Option-cases (o.by_name req.username)) [
  | inl unknown ↦ ground (arith, unknown)
  | inr (u, found) ↦
      let room = make_room u.id (unix now) s.counts s.revokes w.table in
      ground (
        arith,
        found,
        live-make_room family u.id (unix now) s.counts s.revokes w.table,
        live-create family (first_row (o.hash_token s.raw) s u.id req.native now) room,
      )
]

pub live-post_login :
    (o : Outside) (family ip : String) (req : Option LoginRequest) (s : Supply) (now : ℕ)
    (w : World)
    → live family (post_login o.hash_token o.check_password o.by_name ip req s now w).0
      ≤ live family w + (if s.family == family then 1 else 0)
unfolding post_login
live-post_login o family ip none s now w = omega arith
live-post_login o family ip (some req) s now w =
    let begun = record w { limiter = (try_begin ip now w.limiter).0 } in
    ground (arith, live-attempt_login o family ip req s now begun)

pub live-post_logout :
    (o : Outside) (family jti cookie body : String) (s : Supply) (now : ℕ) (w : World)
    → live family (post_logout o.hash_token jti cookie body s now w).0 ≤ live family w
unfolding post_logout
live-post_logout o family jti cookie body s now w =
    let raw = (presented cookie body).0 in
    elim (Option-cases (get_refresh_token_by_hash (o.hash_token raw) w.table)) [
      | inl unknown ↦ ground (arith, unknown)
      | inr (rt, found) ↦
          ground (arith, found, live-attempt_family family rt.family_id s.revokes w.table)
    ]

pub live-put_password :
    (o : Outside) (family : String) (user : ℤ) (texts : Option (String × String)) (s : Supply)
    (w : World)
    → live family (put_password o.size o.check_password o.users user texts s w).0 ≤ live family w
unfolding put_password
live-put_password o family user none s w = omega arith
live-put_password o family user (some (current, fresh)) s w = elim (Option-cases (o.users user)) [
  | inl gone ↦ ground (arith, gone)
  | inr (u, found) ↦ ground (arith, found, live-attempt_user family user s.revokes w.table)
]

-- The sign-outs and the purge.
pub live-others :
    (o : Outside) (family other : String) (user : ℤ) (s : Supply) (now : ℕ) (w : World)
    → (live family (sessions_revoke o.users other now s w) ≤ live family w)
      × (live family (users_signout o.users user s w) ≤ live family w)
      × (live family (purge now w) ≤ live family w)
unfolding sessions_revoke users_signout purge revoke_refresh_token_family
    delete_expired_refresh_tokens
live-others o family other user s now w = (
  elim (Option-cases
      (get_active_session_owner (λ id. is_known o.users id) other (unix now) w.table)) [
        | inl nobody ↦ ground (arith, nobody)
        | inr (owner, found) ↦
            ground
              (arith, found, live_rows-revoke_where family (λ r. r.family_id == other) w.table.rows)
      ],
  ground (arith, live-attempt_user family user s.revokes w.table),
  live_rows-rows_where family _ w.table.rows,
)
