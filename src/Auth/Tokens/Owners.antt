-- ===== src/Auth/Tokens/Owners.antt =====
-- Signing a user out reaches every token that the user holds.
use squelch.Prelude.{
  ℕ, ◌+◌, ◌≤◌, ◌<◌, ◌≡◌, refl, ◌≢◌, Bool, true, false, ◌||◌, List, [], ◌∷◌, ◌++◌, String, ◌==◌,
  text_comparable, int_comparable, arith, ==_iff, ==_refl, inl, inr, List-cases,
}
use squelch.Prelude.Int.{ℤ}
use squelch.Prelude.Dict.{Dict, lookup, insert, retain, lookup-insert, lookup-delete}
use squelch.Auth.Tokens.{
  access_token_expiry, TokenEntry, TokenTracker, Claims, tokens_of, entries_or_none, live_entries,
  live_users, forget_users, not_past, cleanup, evict, track, is_revoked, revoke, revoke_family,
  family_revoked, deny_all, revoke_all_for_user, rejects,
}
use squelch.Auth.Tokens.Entries.{
  keeps, keeps_all, denies, keeps_all-live_users, lookup-forget_users, denies-retain, keeps-lookup,
  keeps_all-insert, keeps_all-delete, keeps-append,
}
use squelch.Auth.Tokens.Finality.{
  Call, tracks, checks, revokes, revokes_family, checks_family, revokes_user, call, run, IsOther,
  Within, run-IsDenied, IsDenied-rejects,
}

-- Whether a list has the token.
abbrev pub holds : String → List TokenEntry → Bool
holds jti [] = false
holds jti (e ∷ es) = e.jti == jti || holds jti es

-- The token is on its owner's list, unless it was denied already.
pub record IsOwned (user : ℤ) (jti : String) (expiry : ℕ) (t : TokenTracker) : Type 0 where
  pub owned :
      (holds jti (entries_or_none (lookup user t.user_tokens))
        || denies expiry (lookup jti t.denied))
      ≡ true
  pub kept : keeps_all jti expiry t.user_tokens ≡ true

holds-live_entries :
    (jti : String) (expiry now : ℕ) (es : List TokenEntry)
    → now < expiry
    → keeps jti expiry es ≡ true
    → holds jti es ≡ true
    → holds jti (live_entries now es) ≡ true
unfolding live_entries
holds-live_entries jti expiry now [] before h k = k
holds-live_entries jti expiry now (e ∷ es) before h k =
    ground (arith, holds-live_entries jti expiry now es)

holds-live_users :
    (user : ℤ) (jti : String) (expiry now : ℕ) (m : Dict ℤ (List TokenEntry))
    → now < expiry
    → keeps_all jti expiry m ≡ true
    → holds jti (entries_or_none (lookup user m)) ≡ true
    → holds jti (entries_or_none (lookup user (live_users now m))) ≡ true
unfolding live_users lookup
holds-live_users user jti expiry now [] before h k = k
holds-live_users user jti expiry now ((key, es) ∷ rest) before h k =
    elim (List-cases (live_entries now es)) [
      | inl empty ↦ ground (
        arith,
        empty,
        holds-live_entries jti expiry now es before,
        holds-live_users user jti expiry now rest before,
      )
      | inr (e, more, left) ↦ ground (
        arith,
        left,
        holds-live_entries jti expiry now es before,
        holds-live_users user jti expiry now rest before,
      )
    ]

cleanup-IsOwned :
    (user : ℤ) (jti : String) (expiry now : ℕ) (t : TokenTracker)
    → now < expiry
    → IsOwned user jti expiry t
    → IsOwned user jti expiry (cleanup now t)
unfolding cleanup
cleanup-IsOwned user jti expiry now t before h = record {
  owned = ground (
    arith,
    h.owned,
    h.kept,
    holds-live_users user jti expiry now t.user_tokens before,
    lookup-forget_users jti expiry now t.user_tokens t.denied before,
    denies-retain jti expiry now (forget_users now t.user_tokens t.denied) before,
  );
  kept = keeps_all-live_users jti expiry now t.user_tokens h.kept;
}

holds-append :
    (jti : String) (es : List TokenEntry) (e : TokenEntry)
    → holds jti (es ++ e ∷ []) ≡ (holds jti es || e.jti == jti)
holds-append jti [] e = ground arith
holds-append jti (f ∷ es) e = ground (arith, holds-append jti es e)

-- The token stays in the list or is denied with its own expiry, and others' denials stay.
evict-IsOwned :
    (jti : String) (expiry max_tokens : ℕ) (es : List TokenEntry) (d : Dict String ℕ)
    → keeps jti expiry es ≡ true
    → let (es', d') = evict max_tokens es d in
      (keeps jti expiry es' ≡ true)
      × (holds jti es ≡ true → (holds jti es' || denies expiry (lookup jti d')) ≡ true)
      × (denies expiry (lookup jti d) ≡ true → denies expiry (lookup jti d') ≡ true)
unfolding evict
evict-IsOwned jti expiry max_tokens [] d h = (refl, (λ k. cc), λ k. k)
evict-IsOwned jti expiry max_tokens (e ∷ es) d h = (
  ground arith,
  (λ k. ground (arith, ==_iff e.jti jti, lookup-insert e.jti jti e.expires_at d)),
  λ k. ground (arith, ==_iff e.jti jti, lookup-insert e.jti jti e.expires_at d),
)

track-IsOwned :
    (user : ℤ) (jti : String) (expiry now : ℕ) (owner : ℤ) (new : String) (until : ℕ)
    (t : TokenTracker)
    → now < expiry
    → new ≢ jti
    → IsOwned user jti expiry t
    → IsOwned user jti expiry (track owner new until now t)
unfolding track tokens_of
track-IsOwned user jti expiry now owner new until t before ne h =
    let t' = cleanup now t in
    let h' = cleanup-IsOwned user jti expiry now t before h in
    let es = entries_or_none (lookup owner t'.user_tokens) in
    let d = t'.denied in
    let fresh : TokenEntry = record { jti = new; expires_at = until } in
    let (kept, stays, others) =
      evict-IsOwned jti expiry t'.max_tokens es d
        (keeps-lookup jti expiry owner t'.user_tokens h'.kept) in
    let es' = (evict t'.max_tokens es d).0 in
    record {
      owned = ground (
        arith,
        h'.owned,
        ==_iff owner user,
        stays,
        others,
        holds-append jti es' fresh,
        lookup-insert owner user (es' ++ fresh ∷ []) t'.user_tokens,
      );
      kept =
          keeps_all-insert jti expiry owner _ t'.user_tokens h'.kept
            (keeps-append jti new expiry until _ ne kept);
    }

deny_all-denies :
    (jti : String) (expiry : ℕ) (es : List TokenEntry) (d : Dict String ℕ)
    → keeps jti expiry es ≡ true
    → (holds jti es || denies expiry (lookup jti d)) ≡ true
    → denies expiry (lookup jti (deny_all es d)) ≡ true
unfolding deny_all
deny_all-denies jti expiry [] d h k = k
deny_all-denies jti expiry (e ∷ es) d h k =
    deny_all-denies jti expiry es (insert e.jti e.expires_at d) (ground arith)
      (ground (arith, ==_iff e.jti jti, lookup-insert e.jti jti e.expires_at d))

-- Denying another user's tokens takes nothing away.
revoked-IsOwned :
    (user : ℤ) (jti : String) (expiry : ℕ) (other : ℤ) (t : TokenTracker)
    → IsOwned user jti expiry t
    → IsOwned user jti expiry (revoke_all_for_user other t)
unfolding revoke_all_for_user tokens_of
revoked-IsOwned user jti expiry other t h =
    let es = entries_or_none (lookup other t.user_tokens) in
    let kept = keeps-lookup jti expiry other t.user_tokens h.kept in
    record {
      owned = ground (
        arith,
        h.owned,
        ==_iff other user,
        lookup-delete other user t.user_tokens,
        deny_all-denies jti expiry es t.denied kept,
      );
      kept = keeps_all-delete jti expiry other t.user_tokens h.kept;
    }

call-IsOwned :
    (user : ℤ) (jti : String) (expiry from now : ℕ) (c : Call) (t : TokenTracker)
    → expiry ≤ from + access_token_expiry
    → (from ≤ now) × (now < expiry) × IsOther jti c
    → IsOwned user jti expiry t
    → IsOwned user jti expiry (call now c t)
unfolding is_revoked revoke revoke_family family_revoked
call-IsOwned user jti expiry from now (tracks owner new until) t short (after, before, other) h =
    track-IsOwned user jti expiry now owner new until t before other h
call-IsOwned user jti expiry from now (checks j) t short (after, before, other) h = record {
  owned = ground (arith, h.owned, ==_iff j jti, lookup-delete j jti t.denied);
  kept = ground (arith, h.kept);
}
call-IsOwned user jti expiry from now (revokes j) t short (after, before, other) h = record {
  owned =
      ground
        (arith, h.owned, ==_iff j jti, lookup-insert j jti (now + access_token_expiry) t.denied);
  kept = h.kept;
}
call-IsOwned user jti expiry from now (revokes_family family) t short (after, before, other) h =
    record { owned = ground (arith, h.owned); kept = ground (arith, h.kept) }
call-IsOwned user jti expiry from now (checks_family family) t short (after, before, other) h =
    record { owned = ground (arith, h.owned); kept = ground (arith, h.kept) }
call-IsOwned user jti expiry from now (revokes_user owner) t short (after, before, other) h =
    revoked-IsOwned user jti expiry owner t h

run-IsOwned :
    (user : ℤ) (jti : String) (expiry from : ℕ) (cs : List (ℕ × Call)) (t : TokenTracker)
    → expiry ≤ from + access_token_expiry
    → Within jti from expiry cs
    → IsOwned user jti expiry t
    → IsOwned user jti expiry (run cs t)
run-IsOwned user jti expiry from [] t short w h = h
run-IsOwned user jti expiry from ((now, c) ∷ cs) t short (at, w) h =
    run-IsOwned user jti expiry from cs (call now c t) short w
      (call-IsOwned user jti expiry from now c t short at h)

keeps-append_own :
    (jti : String) (expiry : ℕ) (es : List TokenEntry)
    → keeps jti expiry es ≡ true
    → keeps jti expiry (es ++ record { jti = jti; expires_at = expiry } ∷ []) ≡ true
keeps-append_own jti expiry [] h = ground arith
keeps-append_own jti expiry (e ∷ es) h = ground (arith, keeps-append_own jti expiry es)

-- The token that was just given out.
given-IsOwned :
    (user : ℤ) (jti : String) (expiry now : ℕ) (t : TokenTracker)
    → keeps_all jti expiry t.user_tokens ≡ true
    → IsOwned user jti expiry (track user jti expiry now t)
unfolding track tokens_of cleanup
given-IsOwned user jti expiry now t unused =
    let users = live_users now t.user_tokens in
    let d = retain (not_past now) (forget_users now t.user_tokens t.denied) in
    let es = entries_or_none (lookup user users) in
    let live = keeps_all-live_users jti expiry now t.user_tokens unused in
    let own : TokenEntry = record { jti = jti; expires_at = expiry } in
    let (kept, stays, others) =
      evict-IsOwned jti expiry t.max_tokens es d (keeps-lookup jti expiry user users live) in
    let es' = (evict t.max_tokens es d).0 in
    record {
      owned = ground (
        arith,
        ==_refl jti,
        holds-append jti es' own,
        lookup-insert user user (es' ++ own ∷ []) users,
        ==_refl user,
      );
      kept = keeps_all-insert jti expiry user _ users live (keeps-append_own jti expiry es' kept);
    }

-- Signing a user out reaches every token that the user was given: whatever happens between the
-- token's issue, the sign-out and a later request, in any order and for any users, a request that
-- carries the token is rejected until it expires, as long as no other token has its id and its
-- lifetime was no longer than that of an access token.
pub revoke_all-rejects :
    (claims : Claims) (expiry from now later : ℕ) (before after : List (ℕ × Call))
    (t : TokenTracker)
    → keeps_all claims.id expiry t.user_tokens ≡ true
    → expiry ≤ from + access_token_expiry
    → Within claims.id from expiry before
    → Within claims.id from expiry after
    → later < expiry
    → let issued = track claims.user_id claims.id expiry from t in
      let signed_out = revoke_all_for_user claims.user_id (run before issued) in
      (rejects claims now later (run after signed_out)).1 ≡ true
unfolding revoke_all_for_user tokens_of
revoke_all-rejects claims expiry from now later before after t unused short wb wa early =
    let issued = track claims.user_id claims.id expiry from t in
    let h =
      run-IsOwned claims.user_id claims.id expiry from before issued short wb
        (given-IsOwned claims.user_id claims.id expiry from t unused) in
    let held = run before issued in
    let es = entries_or_none (lookup claims.user_id held.user_tokens) in
    IsDenied-rejects claims expiry now later _ early (
      run-IsDenied claims.id expiry from after _ short wa (record {
        denied =
            deny_all-denies claims.id expiry es held.denied
              (keeps-lookup claims.id expiry claims.user_id held.user_tokens h.kept) h.owned;
        kept = keeps_all-delete claims.id expiry claims.user_id held.user_tokens h.kept;
      }))
