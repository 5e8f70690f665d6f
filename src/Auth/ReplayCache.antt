-- ===== src/Auth/ReplayCache.antt =====
-- backend/internal/handler/auth/replay_cache.go: the responses to refresh tokens that were rotated
-- a moment ago. Instants are nanoseconds since Go's zero time; `put` reads the clock twice, once
-- for the expiry and once in `sweepLocked`.
use squelch.Prelude.{
  ℕ, ◌+◌, ◌*◌, ◌≤◌, ◌≡◌, ◌≢◌, Bool, not, [], Option, none, some, String, ltb, leb, ◌==◌,
  text_comparable, if◌then◌else◌, arith, ==_iff, ==_refl,
}
use squelch.Prelude.Int.{ℤ}
use squelch.Prelude.Dict.{
  Dict, lookup, insert, delete, retain, kept, IsKeyed, lookup-insert, lookup-delete, lookup-retain,
  insert-IsKeyed, delete-IsKeyed, retain-IsKeyed,
}

abbrev pub refresh_replay_grace : ℕ
refresh_replay_grace = 30 * 1_000_000_000

pub record ReplayCacheEntry : Type 0 where
  pub access_token : String
  pub refresh_raw : String
  pub user_id : ℤ
  pub username : String
  pub role : String
  pub family_id : String
  pub expires_at : ℕ

pub record ReplayCache : Type 0 where
  pub items : Dict String ReplayCacheEntry
  pub ttl : ℕ

unfoldable pub new_replay_cache : ℕ → ReplayCache
new_replay_cache ttl = record { items = []; ttl = ttl }

-- `!now.After(e.expiresAt)`
abbrev pub is_fresh : ℕ → ReplayCacheEntry → Bool
is_fresh now e = not (ltb e.expires_at now)

unfoldable pub sweep : ℕ → ReplayCache → ReplayCache
sweep now c = record c { items = retain (λ _ e. is_fresh now e) c.items }

unfoldable pub put : String → ReplayCacheEntry → ℕ → ℕ → ReplayCache → ReplayCache
unfolding sweep
put hash e now swept_at c =
    sweep swept_at
      (record c { items = insert hash (record e { expires_at = now + c.ttl }) c.items })

unfoldable pub get : String → ℕ → ReplayCache → ReplayCache × Option ReplayCacheEntry
get hash now c = elim (lookup hash c.items) [
  | none ↦ (c, none)
  | some e ↦
      if ltb e.expires_at now then (record c { items = delete hash c.items }, none) else (c, some e)
]

pub put-IsKeyed :
    (hash : String) (e : ReplayCacheEntry) (now swept_at : ℕ) (c : ReplayCache)
    → IsKeyed c.items
    → IsKeyed (put hash e now swept_at c).items
unfolding put
put-IsKeyed hash e now swept_at c k = retain-IsKeyed _ _ (insert-IsKeyed hash _ c.items k)

pub get-IsKeyed :
    (hash : String) (now : ℕ) (c : ReplayCache) → IsKeyed c.items → IsKeyed (get hash now c).0.items
unfolding get
get-IsKeyed hash now c k = ground (arith, delete-IsKeyed hash c.items k)

-- The answer of `get`, from the entry alone.
get_lem :
    (hash : String) (now : ℕ) (c : ReplayCache)
    → (get hash now c).1 ≡ kept (is_fresh now) (lookup hash c.items)
unfolding get
get_lem hash now c = ground arith

lookup-put :
    (hash j : String) (e : ReplayCacheEntry) (now swept_at : ℕ) (c : ReplayCache)
    → IsKeyed c.items
    → lookup j (put hash e now swept_at c).items
      ≡ kept
          (is_fresh swept_at)
          (if hash == j then some (record e { expires_at = now + c.ttl }) else lookup j c.items)
unfolding put
lookup-put hash j e now swept_at c k = ground (
  arith,
  lookup-retain (λ _ e. is_fresh swept_at e) j
      (insert hash (record e { expires_at = now + c.ttl }) c.items)
      (insert-IsKeyed hash _ c.items k),
  lookup-insert hash j (record e { expires_at = now + c.ttl }) c.items,
)

-- A rotated token presented again until the grace period is over gets the very response that was
-- stored, with its expiry set, and later gets nothing.
pub get-put :
    (hash : String) (e : ReplayCacheEntry) (now swept_at t : ℕ) (c : ReplayCache)
    → IsKeyed c.items
    → swept_at ≤ t
    → (get hash t (put hash e now swept_at c)).1
      ≡ (if leb t (now + c.ttl) then some (record e { expires_at = now + c.ttl }) else none)
get-put hash e now swept_at t c k h = ground (
  arith,
  get_lem hash t (put hash e now swept_at c),
  lookup-put hash hash e now swept_at c k,
  ==_refl hash,
)

-- Storing a response changes no answer for any other token: the sweep drops only what has expired.
pub get-put_ne :
    (hash j : String) (e : ReplayCacheEntry) (now swept_at t : ℕ) (c : ReplayCache)
    → IsKeyed c.items
    → hash ≢ j
    → swept_at ≤ t
    → (get j t (put hash e now swept_at c)).1 ≡ (get j t c).1
get-put_ne hash j e now swept_at t c k ne h = ground (
  arith,
  ==_iff hash j,
  get_lem j t (put hash e now swept_at c),
  get_lem j t c,
  lookup-put hash j e now swept_at c k,
)

-- A `get` changes no later answer, for its own token or any other.
pub get-get :
    (hash j : String) (now t : ℕ) (c : ReplayCache)
    → now ≤ t
    → (get j t (get hash now c).0).1 ≡ (get j t c).1
unfolding get
get-get hash j now t c h = ground (arith, ==_iff hash j, lookup-delete hash j c.items)
