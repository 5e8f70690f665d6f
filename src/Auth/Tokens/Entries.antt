-- ===== src/Auth/Tokens/Entries.antt =====
-- What the entries of the tracker say of one token, and what each change of them keeps.
use squelch.Prelude.{
  ℕ, ◌<◌, ◌≡◌, refl, ◌≢◌, Bool, true, false, not, ◌||◌, ◌&&◌, List, [], ◌∷◌, ◌++◌, Option, none,
  some, String, ltb, leb, ◌==◌, text_comparable, int_comparable, if◌then◌else◌, arith, ==_iff, inl,
  inr, List-cases,
}
use squelch.Prelude.Int.{ℤ}
use squelch.Prelude.Dict.{Dict, lookup, insert, delete, retain, lookup-insert, lookup-delete}
use squelch.Auth.Tokens.{
  TokenEntry, TokenTracker, tokens_of, entries_or_none, live_entries, forget_expired, live_users,
  forget_users, not_past, cleanup, evict, track, deny_all,
}

-- What is known of the token in a list of entries: none of its entries ends early.
abbrev pub keeps : String → ℕ → List TokenEntry → Bool
keeps jti expiry [] = true
keeps jti expiry (e ∷ es) = (not (e.jti == jti) || leb expiry e.expires_at) && keeps jti expiry es

abbrev pub keeps_all : String → ℕ → Dict ℤ (List TokenEntry) → Bool
keeps_all jti expiry [] = true
keeps_all jti expiry ((user, es) ∷ rest) = keeps jti expiry es && keeps_all jti expiry rest

abbrev pub denies : ℕ → Option ℕ → Bool
denies expiry none = false
denies expiry (some until) = leb expiry until

pub record IsDenied (jti : String) (expiry : ℕ) (t : TokenTracker) : Type 0 where
  pub denied : denies expiry (lookup jti t.denied) ≡ true
  pub kept : keeps_all jti expiry t.user_tokens ≡ true

-- The parts of a cleanup before the token expires.
pub keeps-live_entries :
    (jti : String) (expiry now : ℕ) (es : List TokenEntry)
    → keeps jti expiry es ≡ true
    → keeps jti expiry (live_entries now es) ≡ true
unfolding live_entries
keeps-live_entries jti expiry now [] h = refl
keeps-live_entries jti expiry now (e ∷ es) h = ground (arith, keeps-live_entries jti expiry now es)

pub keeps_all-live_users :
    (jti : String) (expiry now : ℕ) (m : Dict ℤ (List TokenEntry))
    → keeps_all jti expiry m ≡ true
    → keeps_all jti expiry (live_users now m) ≡ true
unfolding live_users
keeps_all-live_users jti expiry now [] h = refl
keeps_all-live_users jti expiry now ((user, es) ∷ rest) h =
    elim (List-cases (live_entries now es)) [
      | inl empty ↦ ground (arith, empty, keeps_all-live_users jti expiry now rest)
      | inr (e, more, left) ↦ ground (
        arith,
        left,
        keeps-live_entries jti expiry now es,
        keeps_all-live_users jti expiry now rest,
      )
    ]

pub lookup-forget_expired :
    (jti : String) (expiry now : ℕ) (es : List TokenEntry) (d : Dict String ℕ)
    → now < expiry
    → keeps jti expiry es ≡ true
    → lookup jti (forget_expired now es d) ≡ lookup jti d
unfolding forget_expired
lookup-forget_expired jti expiry now [] d before h = refl
lookup-forget_expired jti expiry now (e ∷ es) d before h = ground (
  arith,
  ==_iff e.jti jti,
  lookup-delete e.jti jti d,
  lookup-forget_expired jti expiry now es (if ltb now e.expires_at then d else delete e.jti d),
)

pub lookup-forget_users :
    (jti : String) (expiry now : ℕ) (m : Dict ℤ (List TokenEntry)) (d : Dict String ℕ)
    → now < expiry
    → keeps_all jti expiry m ≡ true
    → lookup jti (forget_users now m d) ≡ lookup jti d
unfolding forget_users
lookup-forget_users jti expiry now [] d before h = refl
lookup-forget_users jti expiry now ((user, es) ∷ rest) d before h = ground (
  arith,
  lookup-forget_users jti expiry now rest (forget_expired now es d),
  lookup-forget_expired jti expiry now es d,
)

-- A denial that is not past survives the last loop, whether or not the map has other entries.
pub denies-retain :
    (jti : String) (expiry now : ℕ) (d : Dict String ℕ)
    → now < expiry
    → denies expiry (lookup jti d) ≡ true
    → denies expiry (lookup jti (retain (not_past now) d)) ≡ true
unfolding retain lookup
denies-retain jti expiry now [] before h = cc
denies-retain jti expiry now ((key, until) ∷ rest) before h =
    ground (arith, ==_iff key jti, denies-retain jti expiry now rest)

pub cleanup-IsDenied :
    (jti : String) (expiry now : ℕ) (t : TokenTracker)
    → now < expiry
    → IsDenied jti expiry t
    → IsDenied jti expiry (cleanup now t)
unfolding cleanup
cleanup-IsDenied jti expiry now t before h = record {
  denied =
      denies-retain jti expiry now (forget_users now t.user_tokens t.denied) before
        (rw (lookup-forget_users jti expiry now t.user_tokens t.denied before h.kept) (h.denied));
  kept = keeps_all-live_users jti expiry now t.user_tokens h.kept;
}

pub keeps-lookup :
    (jti : String) (expiry : ℕ) (user : ℤ) (m : Dict ℤ (List TokenEntry))
    → keeps_all jti expiry m ≡ true
    → keeps jti expiry (entries_or_none (lookup user m)) ≡ true
unfolding lookup
keeps-lookup jti expiry user [] h = refl
keeps-lookup jti expiry user ((key, es) ∷ rest) h =
    ground (arith, keeps-lookup jti expiry user rest)

pub keeps_all-insert :
    (jti : String) (expiry : ℕ) (user : ℤ) (es : List TokenEntry) (m : Dict ℤ (List TokenEntry))
    → keeps_all jti expiry m ≡ true
    → keeps jti expiry es ≡ true
    → keeps_all jti expiry (insert user es m) ≡ true
unfolding insert
keeps_all-insert jti expiry user es [] h k = ground arith
keeps_all-insert jti expiry user es ((key, old) ∷ rest) h k =
    ground (arith, keeps_all-insert jti expiry user es rest)

pub keeps_all-delete :
    (jti : String) (expiry : ℕ) (user : ℤ) (m : Dict ℤ (List TokenEntry))
    → keeps_all jti expiry m ≡ true
    → keeps_all jti expiry (delete user m) ≡ true
unfolding delete
keeps_all-delete jti expiry user [] h = refl
keeps_all-delete jti expiry user ((key, old) ∷ rest) h =
    ground (arith, keeps_all-delete jti expiry user rest)

pub keeps-append :
    (jti new : String) (expiry until : ℕ) (es : List TokenEntry)
    → new ≢ jti
    → keeps jti expiry es ≡ true
    → keeps jti expiry (es ++ record { jti = new; expires_at = until } ∷ []) ≡ true
keeps-append jti new expiry until [] ne h = ground (arith, ==_iff new jti)
keeps-append jti new expiry until (e ∷ es) ne h =
    ground (arith, keeps-append jti new expiry until es)

pub evict-IsDenied :
    (jti : String) (expiry max_tokens : ℕ) (es : List TokenEntry) (d : Dict String ℕ)
    → keeps jti expiry es ≡ true
    → denies expiry (lookup jti d) ≡ true
    → (keeps jti expiry (evict max_tokens es d).0 ≡ true)
      × (denies expiry (lookup jti (evict max_tokens es d).1) ≡ true)
unfolding evict
evict-IsDenied jti expiry max_tokens [] d h k = (refl, k)
evict-IsDenied jti expiry max_tokens (e ∷ es) d h k = (
  ground (arith, ==_iff e.jti jti),
  ground (arith, ==_iff e.jti jti, lookup-insert e.jti jti e.expires_at d),
)

pub track-IsDenied :
    (jti : String) (expiry now : ℕ) (user : ℤ) (new : String) (until : ℕ) (t : TokenTracker)
    → now < expiry
    → new ≢ jti
    → IsDenied jti expiry t
    → IsDenied jti expiry (track user new until now t)
unfolding track tokens_of
track-IsDenied jti expiry now user new until t before ne h =
    let t' = cleanup now t in
    let h' = cleanup-IsDenied jti expiry now t before h in
    let es = entries_or_none (lookup user t'.user_tokens) in
    let (kept, denied) =
      evict-IsDenied jti expiry t'.max_tokens es t'.denied
        (keeps-lookup jti expiry user t'.user_tokens h'.kept) h'.denied in
    record {
      denied = denied;
      kept =
          keeps_all-insert jti expiry user _ t'.user_tokens h'.kept
            (keeps-append jti new expiry until _ ne kept);
    }

pub deny_all-IsDenied :
    (jti : String) (expiry : ℕ) (es : List TokenEntry) (d : Dict String ℕ)
    → keeps jti expiry es ≡ true
    → denies expiry (lookup jti d) ≡ true
    → denies expiry (lookup jti (deny_all es d)) ≡ true
unfolding deny_all
deny_all-IsDenied jti expiry [] d h k = k
deny_all-IsDenied jti expiry (e ∷ es) d h k =
    deny_all-IsDenied jti expiry es (insert e.jti e.expires_at d) (ground arith)
      (ground (arith, ==_iff e.jti jti, lookup-insert e.jti jti e.expires_at d))
