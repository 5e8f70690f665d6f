-- ===== src/Sessions/Replies.antt =====
-- What the replies to a sign-in and to a refresh give, and to whom.
use squelch.Prelude.{
  ℕ, ◌+◌, ◌≤◌, ◌≡◌, ◌≢◌, Bool, true, false, ◌||◌, some, String, ltb, text_comparable,
  nat_comparable, arith, ==_iff, Bool-cases, Option-cases, inl, inr,
}
use squelch.Auth.RateLimiter.{try_begin}
use squelch.Auth.ReplayCache.{get, put}
use squelch.Auth.Tokens.{track, access_token_expiry}
use squelch.RefreshTokens.{
  RefreshToken, get_refresh_token_by_hash, revoke_refresh_token, revoke_refresh_token_family,
  create_refresh_token,
}
use squelch.Sessions.{
  User, World, Supply, LoginRequest, mint, rotate, replay_or_theft, post_refresh, presented,
  refusal, refusal_clearing, granted, account_expired, post_login, attempt_login, unix, rotated_row,
  cache_entry, attempt,
}
use squelch.Sessions.Requests.{Outside}

-- Each way to answer a refresh gives a refresh token in the body only to a body token.
mint-via_body :
    (o : Outside) (rt : RefreshToken) (u : User) (via_body : Bool) (s : Supply) (now : ℕ)
    (hash : String) (w : World) {raw : String}
    → (mint o.hash_token rt u via_body s now hash w).1.refresh_token ≡ some raw
    → via_body ≡ true
unfolding mint refusal granted
mint-via_body o rt u via_body s now hash w h = ground arith

rotate-via_body :
    (o : Outside) (rt : RefreshToken) (via_body : Bool) (s : Supply) (now : ℕ) (hash : String)
    (w : World) {raw : String}
    → (rotate o.hash_token o.users rt via_body s now hash w).1.refresh_token ≡ some raw
    → via_body ≡ true
unfolding rotate refusal refusal_clearing
rotate-via_body o rt via_body s now hash w {raw} h =
    let used = record w { table = attempt s.revokes (revoke_refresh_token rt.id) w.table } in
    elim (Option-cases (o.users rt.user_id)) [
      | inl gone ↦ ground (arith, gone)
      | inr (u, found) ↦
          ground (arith, found, mint-via_body o rt u via_body s now hash used {raw = raw})
    ]

replay-via_body :
    (o : Outside) (rt : RefreshToken) (via_body : Bool) (s : Supply) (now : ℕ) (hash : String)
    (w : World) {raw : String}
    → (replay_or_theft o.hash_token rt via_body s now hash w).1.refresh_token ≡ some raw
    → via_body ≡ true
unfolding replay_or_theft refusal refusal_clearing granted
replay-via_body o rt via_body s now hash w h = elim (Option-cases ((get hash now w.replay).1)) [
  | inl none' ↦ ground (arith, none')
  | inr (e, cached) ↦ ground (arith, cached)
]

presented-via_body :
    (cookie body : String) → (presented cookie body).1 ≡ true → (cookie ≡ "") × (body ≢ "")
unfolding presented
presented-via_body cookie body h =
    (ground (arith, ==_iff cookie ""), λ e. ground (arith, ==_iff cookie "", ==_iff body ""))

-- A refresh puts a refresh token into the body only for a request without a cookie that carried
-- one in its body, and sets no cookie for it: a browser's page never sees one.
pub refresh_token_private :
    (o : Outside) (cookie body : String) (s : Supply) (now : ℕ) (w : World) {raw : String}
    → (post_refresh o.hash_token o.users cookie body s now w).1.refresh_token ≡ some raw
    → (cookie ≡ "") × (body ≢ "")
unfolding post_refresh refusal refusal_clearing
refresh_token_private o cookie body s now w {raw = given} h =
    let (raw, via_body) = presented cookie body in
    let hash = o.hash_token raw in
    presented-via_body cookie body (elim (Option-cases (get_refresh_token_by_hash hash w.table)) [
      | inl unknown ↦ ground (arith, unknown)
      | inr (rt, found) ↦ ground (
        arith,
        found,
        rotate-via_body o rt via_body s now hash w {raw = given},
        replay-via_body o rt via_body s now hash w {raw = given},
      )
    ])

-- The account may sign in.
abbrev pub IsOpen : ℕ → User → Type 0
IsOpen now u = (u.disabled ≡ false) × (account_expired now u ≡ false)

rotate-next_id :
    (o : Outside) (rt : RefreshToken) (via_body : Bool) (s : Supply) (now : ℕ) (hash : String)
    (w : World)
    → (rotate o.hash_token o.users rt via_body s now hash w).0.table.next_id ≢ w.table.next_id
    → (unix now ≤ rt.expires_at) × (u : User) × (o.users rt.user_id ≡ some u) × IsOpen now u
unfolding rotate revoke_refresh_token
rotate-next_id o rt via_body s now hash w h = elim (Option-cases (o.users rt.user_id)) [
  | inl gone ↦ absurd (h (ground (arith, gone)))
  | inr (u, found) ↦ elim (Bool-cases (ltb rt.expires_at (unix now))) [
    | inl late ↦ absurd (h (ground (arith, late)))
    | inr early ↦ elim (Bool-cases (u.disabled || account_expired now u)) [
      | inl shut ↦ absurd (h (ground (arith, found, early, shut)))
      | inr free ↦ (ground (arith, early), u, found, (ground (arith, free), ground (arith, free)))
    ]
  ]
]

replay-next_id :
    (o : Outside) (rt : RefreshToken) (via_body : Bool) (s : Supply) (now : ℕ) (hash : String)
    (w : World)
    → (replay_or_theft o.hash_token rt via_body s now hash w).0.table.next_id ≡ w.table.next_id
unfolding replay_or_theft revoke_refresh_token_family
replay-next_id o rt via_body s now hash w = elim (Option-cases ((get hash now w.replay).1)) [
  | inl none' ↦ ground (arith, none')
  | inr (e, cached) ↦ ground (arith, cached)
]

-- A refresh mints a new refresh token only for a token that is in the table, not revoked and not
-- expired, of an account that is there, enabled and not expired.
pub minted_for :
    (o : Outside) (cookie body : String) (s : Supply) (now : ℕ) (w : World)
    → (post_refresh o.hash_token o.users cookie body s now w).0.table.next_id ≢ w.table.next_id
    → (rt : RefreshToken) × (u : User) × (get_refresh_token_by_hash
          (o.hash_token (presented cookie body).0)
          w.table
        ≡ some rt)
      × (rt.revoked ≡ false)
      × (unix now ≤ rt.expires_at)
      × (o.users rt.user_id ≡ some u)
      × IsOpen now u
unfolding post_refresh
minted_for o cookie body s now w h =
    let (raw, via_body) = presented cookie body in
    let hash = o.hash_token raw in
    elim (Option-cases (get_refresh_token_by_hash hash w.table)) [
      | inl unknown ↦ absurd (h (ground (arith, unknown)))
      | inr (rt, found) ↦ elim (Bool-cases (rt.revoked)) [
        | inl gone ↦
            absurd (h (ground (arith, found, gone, replay-next_id o rt via_body s now hash w)))
        | inr alive ↦
            let (early, u, known, free) =
              rotate-next_id o rt via_body s now hash w
                (λ e. h (ground (arith, found, alive, e))) in
            (rt, u, found, alive, early, known, free)
      ]
    ]

-- The world after a refresh that worked.
abbrev rotated : Outside → String → Bool → RefreshToken → User → Supply → ℕ → World → World
rotated o hash via_body rt u s now w = record w {
  table =
      create_refresh_token (rotated_row (o.hash_token s.raw) rt u.id via_body now)
        (revoke_refresh_token rt.id w.table);
  tokens = track u.id s.jti (now + access_token_expiry) now w.tokens;
  replay = put hash (cache_entry s u rt.family_id) now now w.replay;
}

-- A sign-in gives tokens only to a request that the rate limiter admits, for an account that is
-- there, enabled and not expired, and with its password.
pub login_gate :
    (o : Outside) (ip : String) (req : LoginRequest) (s : Supply) (now : ℕ) (w : World)
    {access : String}
    → (post_login o.hash_token o.check_password o.by_name ip (some req) s now w).1.token
      ≡ some access
    → ((try_begin ip now w.limiter).1 ≡ true)
      × (u : User) × (o.by_name req.username ≡ some u)
      × IsOpen now u
      × (o.check_password req.password u.password_hash ≡ true)
unfolding post_login attempt_login refusal
login_gate o ip req s now w h = elim (Option-cases (o.by_name req.username)) [
  | inl unknown ↦ absurd (ground (arith, unknown))
  | inr (u, found) ↦ (
    ground (arith, found),
    u,
    found,
    (ground (arith, found), ground (arith, found)),
    ground (arith, found),
  )
]
