-- ===== src/TrMqtt/Ring/Slots.antt =====
-- The arithmetic of the ring's slots, without remainders.
use native.Mathlib.Nat.{mod-eq_of_lt, mod-eq-sub-mod}
use squelch.Prelude.{
  ℕ, suc, ◌+◌, ◌-◌, ◌%◌, ◌≤◌, ◌<◌, ◌≡◌, ltb, if◌then◌else◌, arith, ◌≢◌, Bool-cases, inl, inr,
  ltb→lt, ◌⊎◌,
}

-- A remainder that wraps around once at most.
wrap : ℕ → ℕ → ℕ
wrap c x = if ltb x c then x else x - c

mod-wrap : (c x : ℕ) → x < c + c → x % c ≡ wrap c x
unfolding wrap
mod-wrap c x h = elim (Bool-cases (ltb x c)) [
  | inl small ↦ rw small (mod-eq_of_lt (ltb→lt x c small))
  | inr big ↦
      rw big (rw (mod-eq-sub-mod {n = x} {m = c} (ground arith)) (mod-eq_of_lt (ground arith)))
]

-- The slot of the i-th oldest of `n` elements, in a ring of `c` whose next write is at `h`.
abbrev pub slot : ℕ → ℕ → ℕ → ℕ → ℕ
slot c h n i = ((h + c - n) % c + i) % c

wrapped : ℕ → ℕ → ℕ → ℕ → ℕ
wrapped c h n i = wrap c (wrap c (h + c - n) + i)

slot-wrapped : (c h n i : ℕ) → h < c → n ≤ c → i ≤ n → 0 < n → slot c h n i ≡ wrapped c h n i
unfolding wrapped wrap
slot-wrapped c h n i p q k z =
    let first = mod-wrap c (h + c - n) (omega arith) in
    rw first (mod-wrap c (wrap c (h + c - n) + i) (ground arith))

pub next_head : (c h : ℕ) → h < c → (h + 1) % c ≡ (if ltb (h + 1) c then h + 1 else 0)
unfolding wrap
next_head c h p = ground (arith, mod-wrap c (h + 1) (omega arith))

first_others : (c h n : ℕ) → h < c → n < c → wrap c ((h + 1) % c + c - suc n) ≡ wrap c (h + c - n)
unfolding wrap
first_others c h n p q = ground (arith, next_head c h p)

pub next_head-lt : (c h : ℕ) → h < c → (h + 1) % c < c
next_head-lt c h p = ground (arith, next_head c h p)

-- The next write goes behind the newest element,
pub slot-newest : (c h n : ℕ) → h < c → n < c → slot c ((h + 1) % c) (suc n) n ≡ h
unfolding wrapped wrap
slot-newest c h n p q = ground (arith, next_head c h p, slot-wrapped c ((h + 1) % c) (suc n) n)

-- and leaves the others where they were.
pub slot-others :
    (c h n i : ℕ) → h < c → n < c → i < n → slot c ((h + 1) % c) (suc n) i ≡ slot c h n i
unfolding wrapped wrap
slot-others c h n i p q k = rw (
  slot-wrapped c ((h + 1) % c) (suc n) i (next_head-lt c h p) q (omega arith) (omega arith),
  slot-wrapped c h n i p (omega arith) (omega arith) (omega arith),
  first_others c h n p q,
)

-- In a full ring each element becomes one older.
pub slot-full_newest : (c h i : ℕ) → h < c → suc i ≡ c → slot c ((h + 1) % c) c i ≡ h
unfolding wrapped wrap
slot-full_newest c h i p q = ground (arith, next_head c h p, slot-wrapped c ((h + 1) % c) c i)

pub slot-full_others :
    (c h i : ℕ) → h < c → suc i < c → slot c ((h + 1) % c) c i ≡ slot c h c (suc i)
unfolding wrapped wrap
slot-full_others c h i p q =
    ground (arith, next_head c h p, slot-wrapped c ((h + 1) % c) c i, slot-wrapped c h c (suc i))

-- A write hits no element that stays.
pub slot_ne : (c h n i : ℕ) → h < c → n ≤ c → i < n → (n < c) ⊎ (0 < i) → h ≢ slot c h n i
unfolding wrapped wrap
slot_ne c h n i p q k s e = ground (arith, slot-wrapped c h n i)
