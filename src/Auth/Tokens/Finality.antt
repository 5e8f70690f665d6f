-- ===== src/Auth/Tokens/Finality.antt =====
-- A token that was revoked stays revoked until it expires.
use squelch.Prelude.{
  ℕ, ◌+◌, ◌≤◌, ◌<◌, ◌≡◌, ◌≢◌, true, List, [], ◌∷◌, String, text_comparable, int_comparable, arith,
  ==_iff, ==_refl,
}
use squelch.Prelude.Int.{ℤ}
use squelch.Prelude.Dict.{lookup-insert, lookup-delete}
use squelch.Prelude.Sort.{All}
use squelch.Auth.Tokens.{
  access_token_expiry, TokenTracker, Claims, tokens_of, track, is_revoked, revoke, revoke_family,
  family_revoked, revoke_all_for_user, rejects,
}
use squelch.Auth.Tokens.Entries.{
  IsDenied, deny_all-IsDenied, keeps-lookup, keeps_all, keeps_all-delete, track-IsDenied,
}

-- The calls of the tracker's methods.
pub data Call : Type 0 where
  tracks : ℤ → String → ℕ → Call
  checks : String → Call
  revokes : String → Call
  revokes_family : String → Call
  checks_family : String → Call
  revokes_user : ℤ → Call

abbrev pub call : ℕ → Call → TokenTracker → TokenTracker
call now (tracks user jti expires_at) t = track user jti expires_at now t
call now (checks jti) t = (is_revoked jti now t).0
call now (revokes jti) t = revoke jti now t
call now (revokes_family family) t = revoke_family family now t
call now (checks_family family) t = (family_revoked family now t).0
call now (revokes_user user) t = revoke_all_for_user user t

abbrev pub run : List (ℕ × Call) → TokenTracker → TokenTracker
run [] t = t
run ((now, c) ∷ cs) t = run cs (call now c t)

-- No token is given the id again.
abbrev pub IsOther : String → Call → Type 0
IsOther jti (tracks user new expires_at) = new ≢ jti
IsOther jti _ = Unit

-- The calls of a stretch of time, from the revocation until the token expires.
abbrev pub Within : String → ℕ → ℕ → List (ℕ × Call) → Type 0
Within jti from expiry = All (λ (now, c). (from ≤ now) × (now < expiry) × IsOther jti c)

pub call-IsDenied :
    (jti : String) (expiry from now : ℕ) (c : Call) (t : TokenTracker)
    → expiry ≤ from + access_token_expiry
    → (from ≤ now) × (now < expiry) × IsOther jti c
    → IsDenied jti expiry t
    → IsDenied jti expiry (call now c t)
unfolding is_revoked revoke revoke_family family_revoked revoke_all_for_user tokens_of
call-IsDenied jti expiry from now (tracks user new until) t short (after, before, other) h =
    track-IsDenied jti expiry now user new until t before other h
call-IsDenied jti expiry from now (checks j) t short (after, before, other) h = record {
  denied = ground (arith, h.denied, ==_iff j jti, lookup-delete j jti t.denied);
  kept = ground (arith, h.kept);
}
call-IsDenied jti expiry from now (revokes j) t short (after, before, other) h = record {
  denied =
      ground
        (arith, h.denied, ==_iff j jti, lookup-insert j jti (now + access_token_expiry) t.denied);
  kept = h.kept;
}
call-IsDenied jti expiry from now (revokes_family family) t short (after, before, other) h =
    record { denied = ground (arith, h.denied); kept = ground (arith, h.kept) }
call-IsDenied jti expiry from now (checks_family family) t short (after, before, other) h = record {
  denied = ground (arith, h.denied);
  kept = ground (arith, h.kept);
}
call-IsDenied jti expiry from now (revokes_user user) t short (after, before, other) h = record {
  denied =
      deny_all-IsDenied jti expiry _ t.denied (keeps-lookup jti expiry user t.user_tokens h.kept)
        h.denied;
  kept = keeps_all-delete jti expiry user t.user_tokens h.kept;
}

pub run-IsDenied :
    (jti : String) (expiry from : ℕ) (cs : List (ℕ × Call)) (t : TokenTracker)
    → expiry ≤ from + access_token_expiry
    → Within jti from expiry cs
    → IsDenied jti expiry t
    → IsDenied jti expiry (run cs t)
run-IsDenied jti expiry from [] t short w h = h
run-IsDenied jti expiry from ((now, c) ∷ cs) t short (at, w) h =
    run-IsDenied jti expiry from cs (call now c t) short w
      (call-IsDenied jti expiry from now c t short at h)

pub IsDenied-rejects :
    (claims : Claims) (expiry now later : ℕ) (t : TokenTracker)
    → later < expiry
    → IsDenied claims.id expiry t
    → (rejects claims now later t).1 ≡ true
unfolding rejects is_revoked family_revoked
IsDenied-rejects claims expiry now later t before h = ground (arith, h.denied)

-- Signing a token out is final: whatever the tracker is asked to do afterwards, by any user and in
-- any order, every request that carries the token is rejected until it expires, as long as its id
-- is not given out again and its lifetime was no longer than that of an access token.
pub revoke-rejects :
    (claims : Claims) (expiry from now later : ℕ) (cs : List (ℕ × Call)) (t : TokenTracker)
    → keeps_all claims.id expiry t.user_tokens ≡ true
    → expiry ≤ from + access_token_expiry
    → Within claims.id from expiry cs
    → later < expiry
    → (rejects claims now later (run cs (revoke claims.id from t))).1 ≡ true
unfolding revoke
revoke-rejects claims expiry from now later cs t kept short within before =
    IsDenied-rejects claims expiry now later _ before (
      run-IsDenied claims.id expiry from cs (revoke claims.id from t) short within (record {
        denied = ground (
          arith,
          lookup-insert claims.id claims.id (from + access_token_expiry) t.denied,
          ==_refl claims.id,
        );
        kept = kept;
      }))
