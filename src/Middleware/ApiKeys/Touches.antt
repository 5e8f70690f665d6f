-- ===== src/Middleware/ApiKeys/Touches.antt =====
-- How often the use of an API key is written down.
use squelch.Prelude.{
  ℕ, ◌+◌, ◌<◌, ◌≡◌, refl, Bool, true, ◌&&◌, List, [], ◌∷◌, ◌++◌, Option, none, some, String, ltb,
  leb, ◌==◌, int_comparable, if◌then◌else◌, arith, ==_iff, ==_refl, Bool-cases, Option-cases, inl,
  inr,
}
use squelch.Prelude.Int.{ℤ}
use squelch.Prelude.Dict.{lookup, lookup-insert}
use squelch.Middleware.ApiKeys.{Touch, Touched, touch_interval, touch_api_key}

abbrev pub untouched : Touched
untouched = record { last = []; writes = [] }

-- The uses of keys one after the other: the key, the address and the time.
abbrev pub use_all : List (ℤ × String × ℕ) → Touched → Touched
use_all [] t = t
use_all ((id, ip, now) ∷ us) t = use_all us (touch_api_key id ip now t)

-- The last write of a key, after those before.
abbrev pub last_write : ℤ → Option ℕ → List Touch → Option ℕ
last_write id before [] = before
last_write id before ((key, now, ip) ∷ ws) =
    last_write id (if key == id then some now else before) ws

abbrev pub is_later : Option ℕ → ℕ → Bool
is_later none now = true
is_later (some before) now = leb (before + touch_interval) now

-- Each write of the key is a minute after the one before it.
abbrev pub apart : ℤ → Option ℕ → List Touch → Bool
apart id before [] = true
apart id before ((key, now, ip) ∷ ws) =
    if key == id then is_later before now && apart id (some now) ws else apart id before ws

last_write-append :
    (id key : ℤ) (now : ℕ) (ip : String) (before : Option ℕ) (ws : List Touch)
    → last_write id before (ws ++ (key, now, ip) ∷ [])
      ≡ (if key == id then some now else last_write id before ws)
last_write-append id key now ip before [] = ground arith
last_write-append id key now ip before ((k, n, a) ∷ ws) =
    last_write-append id key now ip (if k == id then some n else before) ws

apart-append :
    (id key : ℤ) (now : ℕ) (ip : String) (before : Option ℕ) (ws : List Touch)
    → apart id before (ws ++ (key, now, ip) ∷ [])
      ≡ (apart id before ws && (if key == id then is_later (last_write id before ws) now else true))
apart-append id key now ip before [] = ground arith
apart-append id key now ip before ((k, n, a) ∷ ws) =
    ground (arith, apart-append id key now ip before ws, apart-append id key now ip (some n) ws)

pub record IsApart (id : ℤ) (t : Touched) : Type 0 where
  pub spaced : apart id none t.writes ≡ true
  pub known : lookup id t.last ≡ last_write id none t.writes

touch-IsApart :
    (id key : ℤ) (ip : String) (now : ℕ) (t : Touched)
    → IsApart id t
    → IsApart id (touch_api_key key ip now t)
unfolding touch_api_key lookup
touch-IsApart id key ip now t h = elim (Option-cases (lookup key t.last)) [
  | inl never ↦ record {
    spaced =
        ground (
          arith,
          never,
          h.spaced,
          h.known,
          ==_iff key id,
          apart-append id key now ip none t.writes,
        );
    known = ground (
      arith,
      never,
      h.known,
      last_write-append id key now ip none t.writes,
      lookup-insert key id now t.last,
    );
  }
  | inr (last, was) ↦ record {
    spaced =
        ground
          (arith, was, h.spaced, h.known, ==_iff key id, apart-append id key now ip none t.writes);
    known = ground (
      arith,
      was,
      h.known,
      last_write-append id key now ip none t.writes,
      lookup-insert key id now t.last,
    );
  }
]

use_all-IsApart :
    (id : ℤ) (us : List (ℤ × String × ℕ)) (t : Touched) → IsApart id t → IsApart id (use_all us t)
use_all-IsApart id [] t h = h
use_all-IsApart id ((key, ip, now) ∷ us) t h =
    use_all-IsApart id us (touch_api_key key ip now t) (touch-IsApart id key ip now t h)

-- However often keys are used and whatever the clock reads, the writes of one key are at least a
-- minute apart, and after a use the last of them is less than a minute old.
pub touched_in_time :
    (id : ℤ) (ip : String) (now : ℕ) (us : List (ℤ × String × ℕ))
    → let t = touch_api_key id ip now (use_all us untouched) in
      (apart id none t.writes ≡ true)
      × (at : ℕ) × (last_write id none t.writes ≡ some at)
      × (now < at + touch_interval)
unfolding touch_api_key lookup
touched_in_time id ip now us =
    let t = use_all us untouched in
    let start : IsApart id untouched = record { spaced = refl; known = refl } in
    let h = use_all-IsApart id us untouched start in
    let h' = touch-IsApart id id ip now t h in
    elim (Option-cases (lookup id t.last)) [
      | inl never ↦ (
        h'.spaced,
        now,
        ground (arith, never, ==_refl id, last_write-append id id now ip none t.writes),
        omega arith,
      )
      | inr (last, was) ↦ elim (Bool-cases (ltb now (last + touch_interval))) [
        | inl recent ↦
            (h'.spaced, last, ground (arith, was, recent, h.known), ground (arith, was, recent))
        | inr over ↦ (
          h'.spaced,
          now,
          ground (arith, was, over, ==_refl id, last_write-append id id now ip none t.writes),
          omega arith,
        )
      ]
    ]
