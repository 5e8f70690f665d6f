-- ===== src/TrMqtt/Ring.antt =====
-- backend/internal/trmqtt/ringbuf.go: a ring buffer that drops its oldest entry when full. The
-- slice is a list of `cap` slots; an index out of range would panic, and a read of it is `none`.
pub mod Slots
pub mod Queue
use squelch.Prelude.{
  ℕ, zero, suc, ◌+◌, ◌-◌, ◌%◌, List, [], ◌∷◌, Option, none, some, ltb, if◌then◌else◌, get_elem?,
  set, replicate,
}
use squelch.Prelude.Int.{ℤ, pos, negsuc}

pub record Ring (A : Type 0) : Type 0 where
  pub buf : List A
  pub cap : ℕ
  pub head : ℕ
  pub count : ℕ

-- Capacities below 1 are 1.
abbrev pub clamp_cap : ℤ → ℕ
clamp_cap (pos n) = if ltb n 1 then 1 else n
clamp_cap (negsuc n) = 1

module _ {A : Type 0} where
  -- `zero_value` is what `make` fills the slots with.
  unfoldable pub new_ring : A → ℤ → Ring A
  new_ring zero_value cap_n =
      let n = clamp_cap cap_n in
      record { buf = replicate n zero_value; cap = n; head = 0; count = 0 }

  unfoldable pub push : A → Ring A → Ring A
  push v r = record r {
    buf = set r.buf r.head v;
    head = (r.head + 1) % r.cap;
    count = if ltb r.count r.cap then r.count + 1 else r.count;
  }

  -- The loop of `Snapshot` from index `i`, with `n` rounds left.
  unfoldable pub read_from : Ring A → ℕ → ℕ → ℕ → Option (List A)
  read_from r start i zero = some []
  read_from r start i (suc n) = elim (get_elem? r.buf ((start + i) % r.cap)) [
    | none ↦ none
    | some v ↦ elim (read_from r start (i + 1) n) [ none ↦ none | some vs ↦ some (v ∷ vs) ]
  ]

  unfoldable pub snapshot : Ring A → Option (List A)
  unfolding read_from
  snapshot r = read_from r ((r.head + r.cap - r.count) % r.cap) 0 r.count

  unfoldable pub len : Ring A → ℕ
  len r = r.count
