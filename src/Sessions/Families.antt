-- ===== src/Sessions/Families.antt =====
-- A device session is the family of its refresh tokens: one of them can be used, and none once the
-- family was revoked.
use squelch.Prelude.{
  ℕ, ◌≤◌, ◌≡◌, ◌≢◌, ◌⊎◌, true, false, List, [], ◌∷◌, Option, none, some, String, text_comparable,
  arith, ==_iff, Bool-cases, inl, inr,
}
use squelch.Prelude.Int.{pos}
use squelch.Prelude.Sort.{All}
use squelch.Auth.ReplayCache.{get}
use squelch.RefreshTokens.{RefreshToken, get_refresh_token_by_hash, revoke_refresh_token_family}
use squelch.RefreshTokens.Rows.{live_rows-revoke_family}
use squelch.Sessions.{
  World, Supply, LoginRequest, replay_or_theft, post_refresh, post_logout, presented,
}
use squelch.Sessions.Requests.{
  live, Request, logs_in, refreshes, logs_out, changes_password, admin_revokes, admin_signs_out,
  purges, Outside, serve, run, Avoids, live-post_refresh, live-post_login, live-post_logout,
  live-put_password, live-others, found_live,
}

-- The statement that uses a token up works.
abbrev pub Works : Request → Type 0
Works (refreshes cookie body s) = s.revokes ≡ true
Works _ = Unit

abbrev no_supply : Supply
no_supply = record {
  access = "";
  jti = "";
  raw = "";
  family = "";
  signs = false;
  random = false;
  counts = false;
  revokes = false;
  creates = false;
}

-- A request that gives out another family's tokens, where the family is revoked or the
-- statements of refreshes work.
live-serve :
    (o : Outside) (family : String) (now : ℕ) (r : Request) (w : World)
    → Avoids family r
    → (live family w ≡ 0) ⊎ Works r
    → live family (serve o now r w) ≤ live family w
live-serve o family now (logs_in ip req s) w a h =
    ground (arith, live-post_login o family ip req s now w, ==_iff s.family family)
live-serve o family now (refreshes cookie body s) w a h =
    live-post_refresh o family cookie body s now w h
live-serve o family now (logs_out jti cookie body s) w a h =
    live-post_logout o family jti cookie body s now w
live-serve o family now (changes_password user texts s) w a h =
    live-put_password o family user texts s w
live-serve o family now (admin_revokes other s) w a h =
    (live-others o family other (pos 0) s now w).0
live-serve o family now (admin_signs_out user s) w a h = (live-others o family "" user s now w).1
live-serve o family now purges w a h = (live-others o family "" (pos 0) no_supply now w).2

abbrev pub AvoidsAll : String → List (Outside × ℕ × Request) → Type 0
AvoidsAll family = All (λ (o, now, r). Avoids family r)

abbrev pub AllWork : List (Outside × ℕ × Request) → Type 0
AllWork = All (λ (o, now, r). Works r)

live-run_dead :
    (family : String) (rs : List (Outside × ℕ × Request)) (w : World)
    → AvoidsAll family rs
    → live family w ≡ 0
    → live family (run rs w) ≡ 0
live-run_dead family [] w a h = h
live-run_dead family ((o, now, r) ∷ rs) w (a, as') h =
    live-run_dead family rs (serve o now r w) as'
      (omega (arith, live-serve o family now r w a (inl h)))

live-run :
    (family : String) (rs : List (Outside × ℕ × Request)) (w : World)
    → AvoidsAll family rs
    → AllWork rs
    → live family (run rs w) ≤ live family w
live-run family [] w a h = omega arith
live-run family ((o, now, r) ∷ rs) w (a, as') (h, hs) =
    omega
      (arith, live-run family rs (serve o now r w) as' hs, live-serve o family now r w a (inr h))

-- From the sign-in that opens a new family on, through any requests of anyone that are served one
-- after the other, each finished before the next begins, at most one refresh token of the family
-- can be used, as long as the statement that uses a token up works and no other sign-in is given
-- the family's id. Two refreshes with one token that run at the same time are not covered.
pub one_live_token :
    (o : Outside) (now : ℕ) (ip : String) (req : Option LoginRequest) (s : Supply)
    (rs : List (Outside × ℕ × Request)) (w : World)
    → live s.family w ≡ 0
    → AvoidsAll s.family rs
    → AllWork rs
    → live s.family (run rs (serve o now (logs_in ip req s) w)) ≤ 1
one_live_token o now ip req s rs w unused avoided works = ground (
  arith,
  live-run s.family rs (serve o now (logs_in ip req s) w) avoided works,
  live-post_login o s.family ip req s now w,
)

-- A token of a family that has no usable row is refused, unless its rotation is still cached.
refused :
    (o : Outside) (cookie body : String) (s : Supply) (now : ℕ) (w : World) (rt : RefreshToken)
    → get_refresh_token_by_hash (o.hash_token (presented cookie body).0) w.table ≡ some rt
    → live rt.family_id w ≡ 0
    → (get (o.hash_token (presented cookie body).0) now w.replay).1 ≡ none
    → let reply = (post_refresh o.hash_token o.users cookie body s now w).1 in
      (reply.status ≡ 401) × (reply.token ≡ none) × (reply.refresh_token ≡ none)
unfolding post_refresh
refused o cookie body s now w rt found dead uncached =
    let raw = (presented cookie body).0 in
    elim (Bool-cases (rt.revoked)) [
      | inl gone ↦ ground (arith, found, gone, uncached)
      | inr alive ↦ absurd (omega (arith, found_live o raw w {rt = rt} found alive, dead))
    ]

-- The request carries a token of the family, and the reply to a rotation of it is not cached.
abbrev pub IsOld : Outside → String → String → String → RefreshToken → ℕ → World → Type 0
IsOld o cookie body family rt now w =
    (get_refresh_token_by_hash (o.hash_token (presented cookie body).0) w.table ≡ some rt)
    × (rt.family_id ≡ family)
    × ((get (o.hash_token (presented cookie body).0) now w.replay).1 ≡ none)

-- The same later, through requests that give out other families' tokens only.
refused_later :
    (o : Outside) (family cookie body : String) (s : Supply) (now : ℕ)
    (rs : List (Outside × ℕ × Request)) (w : World) (rt : RefreshToken)
    → live family w ≡ 0
    → AvoidsAll family rs
    → IsOld o cookie body family rt now (run rs w)
    → let reply = (post_refresh o.hash_token o.users cookie body s now (run rs w)).1 in
      (reply.status ≡ 401) × (reply.token ≡ none) × (reply.refresh_token ≡ none)
refused_later o family cookie body s now rs w rt dead avoided (found, same, uncached) =
    refused o cookie body s now (run rs w) rt found
      (rw same (live-run_dead family rs w avoided dead)) uncached

live-logout :
    (o : Outside) (jti cookie body : String) (s : Supply) (now : ℕ) (w : World) (rt : RefreshToken)
    → (presented cookie body).0 ≢ ""
    → get_refresh_token_by_hash (o.hash_token (presented cookie body).0) w.table ≡ some rt
    → s.revokes ≡ true
    → live rt.family_id (post_logout o.hash_token jti cookie body s now w).0 ≡ 0
unfolding post_logout revoke_refresh_token_family
live-logout o jti cookie body s now w rt given found works = ground (
  arith,
  found,
  ==_iff ((presented cookie body).0) "",
  live_rows-revoke_family rt.family_id w.table.rows,
)

live-theft :
    (o : Outside) (cookie body : String) (s : Supply) (now : ℕ) (w : World) (rt : RefreshToken)
    → (presented cookie body).0 ≢ ""
    → get_refresh_token_by_hash (o.hash_token (presented cookie body).0) w.table ≡ some rt
    → rt.revoked ≡ true
    → (get (o.hash_token (presented cookie body).0) now w.replay).1 ≡ none
    → s.revokes ≡ true
    → live rt.family_id (post_refresh o.hash_token o.users cookie body s now w).0 ≡ 0
unfolding post_refresh replay_or_theft revoke_refresh_token_family
live-theft o cookie body s now w rt given found revoked uncached works = ground (
  arith,
  found,
  uncached,
  ==_iff ((presented cookie body).0) "",
  live_rows-revoke_family rt.family_id w.table.rows,
)

-- Signing out with a refresh token ends its device session for good: through any later requests
-- of anyone, every refresh token of the family is refused once the reply to its rotation is no
-- longer cached, provided that the statement which revokes the family worked and that its id is
-- not given out again.
pub logout_final :
    (o later_o : Outside) (jti cookie body : String) (s : Supply) (now : ℕ) (w : World)
    (rt : RefreshToken) (rs : List (Outside × ℕ × Request)) (later_cookie later_body : String)
    (later_s : Supply) (later : ℕ) (later_rt : RefreshToken)
    → (presented cookie body).0 ≢ ""
    → get_refresh_token_by_hash (o.hash_token (presented cookie body).0) w.table ≡ some rt
    → s.revokes ≡ true
    → AvoidsAll rt.family_id rs
    → IsOld later_o later_cookie later_body rt.family_id later_rt later
        (run rs (serve o now (logs_out jti cookie body s) w))
    → let w' = run rs (serve o now (logs_out jti cookie body s) w) in
      let reply =
        (post_refresh later_o.hash_token later_o.users later_cookie later_body later_s later
          w').1 in
      (reply.status ≡ 401) × (reply.token ≡ none) × (reply.refresh_token ≡ none)
logout_final o later_o jti cookie body s now w rt rs cookie' body' s' later rt' given found works
      avoided old =
    refused_later later_o rt.family_id cookie' body' s' later rs
      (serve o now (logs_out jti cookie body s) w) rt'
      (live-logout o jti cookie body s now w rt given found works) avoided old

-- Presenting a refresh token that was used before, when the reply to its use is no longer cached,
-- ends the device session for good, the thief's and the owner's: through any later requests of
-- anyone every refresh token of the family is refused once its own reply is not cached, provided
-- that the statement which revokes the family worked and that its id is not given out again.
pub theft_final :
    (o later_o : Outside) (cookie body : String) (s : Supply) (now : ℕ) (w : World)
    (rt : RefreshToken) (rs : List (Outside × ℕ × Request)) (later_cookie later_body : String)
    (later_s : Supply) (later : ℕ) (later_rt : RefreshToken)
    → (presented cookie body).0 ≢ ""
    → get_refresh_token_by_hash (o.hash_token (presented cookie body).0) w.table ≡ some rt
    → rt.revoked ≡ true
    → (get (o.hash_token (presented cookie body).0) now w.replay).1 ≡ none
    → s.revokes ≡ true
    → AvoidsAll rt.family_id rs
    → IsOld later_o later_cookie later_body rt.family_id later_rt later
        (run rs (serve o now (refreshes cookie body s) w))
    → let w' = run rs (serve o now (refreshes cookie body s) w) in
      let reply =
        (post_refresh later_o.hash_token later_o.users later_cookie later_body later_s later
          w').1 in
      (reply.status ≡ 401) × (reply.token ≡ none) × (reply.refresh_token ≡ none)
theft_final o later_o cookie body s now w rt rs cookie' body' s' later rt' given found revoked fresh
      works avoided old =
    refused_later later_o rt.family_id cookie' body' s' later rs
      (serve o now (refreshes cookie body s) w) rt'
      (live-theft o cookie body s now w rt given found revoked fresh works) avoided old
