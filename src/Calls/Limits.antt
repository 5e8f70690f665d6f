-- ===== src/Calls/Limits.antt =====
-- backend/internal/handler/calls/calls.go: the rate limit of each API key. The clock reading is an
-- argument, in nanoseconds; looking a key's limiter up and asking it is one step.
pub mod Bound
pub mod Cleanup
use squelch.Prelude.{
  ℕ, suc, ◌+◌, ◌*◌, Bool, true, false, not, List, [], ◌∷◌, Option, none, some, ltb, leb, nat_beq,
  int_comparable, if◌then◌else◌, length,
}
use squelch.Prelude.Int.{ℤ, pos, negsuc}
use squelch.Prelude.Dict.{Dict, lookup, insert, retain}

abbrev pub default_call_rate_per_min : ℕ
default_call_rate_per_min = 60

abbrev pub max_call_rate_per_min : ℕ
max_call_rate_per_min = 600

abbrev pub rate_window_duration : ℕ
rate_window_duration = 60_000_000_000

pub record ApiKeyLimiter : Type 0 where
  pub window_start : ℕ
  pub count : ℕ
  pub rate_limit : ℕ

abbrev pub Limiters : Type 0
Limiters = Dict ℤ ApiKeyLimiter

-- The window after a clock reading: a new one when the last is over.
unfoldable pub roll : ℕ → ApiKeyLimiter → ApiKeyLimiter
roll now l =
    if leb (l.window_start + rate_window_duration) now
    then record l { window_start = now; count = 0 }
    else l

unfoldable pub allow : ℕ → ApiKeyLimiter → Bool × ApiKeyLimiter
unfolding roll
allow now l =
    let l' = roll now l in
    if leb l'.rate_limit l'.count then (false, l') else (true, record l' { count = suc l'.count })

abbrev pub is_fresh : ℕ → ApiKeyLimiter → Bool
is_fresh now l = not (leb (l.window_start + 2 * rate_window_duration) now)

-- The clean-up of `getLimiter`.
unfoldable pub clean_up : ℕ → Limiters → Limiters
clean_up now m = if ltb 100 (length m) then retain (λ id l. is_fresh now l) m else m

-- The limiter that `getLimiter` finds or makes.
unfoldable pub limiter_of : ℕ → ℕ → Option ApiKeyLimiter → ApiKeyLimiter
limiter_of now rate none = record { window_start = now; count = 0; rate_limit = rate }
limiter_of now rate (some l) = record l { rate_limit = rate }

-- `h.getLimiter(apiKeyID, rateLimit).allow()`
unfoldable pub admit : ℕ → ℤ → ℕ → Limiters → Bool × Limiters
unfolding clean_up limiter_of allow
admit now id rate m =
    let m' = clean_up now m in
    let (ok, l) = allow now (limiter_of now rate (lookup id m')) in (ok, insert id l m')

abbrev positive : Option ℤ → Option ℕ
positive none = none
positive (some (pos n)) = if nat_beq n 0 then none else some n
positive (some (negsuc n)) = none

-- The rate that a request is held to: the key's own, else the setting's, else the default.
unfoldable pub call_rate : Option ℤ → Option ℤ → ℕ
call_rate of_key of_setting =
    let rate : ℕ = elim (positive of_key) [
      | some r ↦ r
      | none ↦ elim (positive of_setting) [ some r ↦ r | none ↦ default_call_rate_per_min ]
    ] in
    if ltb max_call_rate_per_min rate then max_call_rate_per_min else rate
