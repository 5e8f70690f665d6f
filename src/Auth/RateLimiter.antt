-- ===== src/Auth/RateLimiter.antt =====
-- backend/internal/auth/ratelimit.go. A method that changes the limiter returns the new one, and
-- the clock reading `now := time.Now()` is an argument. Instants are nanoseconds since Go's zero
-- time, so that the zero `time.Time` is 0; the counters start at 0 and do not reach 2 ^ 63.
-- `r.mu` makes each method one step.
pub mod Entries
pub mod Locking
pub mod Admission
pub mod Cleanup
use squelch.Prelude.{
  ℕ, suc, ◌+◌, ◌-◌, ◌*◌, ◌^◌, min, Bool, true, false, not, ◌&&◌, List, [], ◌∷◌, Option, none, some,
  String, ltb, leb, ◌==◌, nat_comparable, text_comparable, if◌then◌else◌,
}
use squelch.Prelude.Int.{ℤ, pos, negsuc}
use squelch.Prelude.Dict.{Dict, lookup, insert, delete, retain}
use squelch.Prelude.Sort.{sort_by}

pub record LoginEntry : Type 0 where
  pub failures : ℕ
  pub in_flight : ℕ
  pub locked_until : ℕ
  pub last_failure : ℕ

pub record RateLimiter : Type 0 where
  pub entries : Dict String LoginEntry
  pub max_failures : ℕ
  pub lockout_duration : ℕ

abbrev pub second : ℕ
second = 1_000_000_000

abbrev pub default_max_failures : ℕ
default_max_failures = 3

abbrev pub default_lockout : ℕ
default_lockout = 10 * 60 * second

-- `&loginEntry{}`
abbrev pub zero_entry : LoginEntry
zero_entry = record { failures = 0; in_flight = 0; locked_until = 0; last_failure = 0 }

-- `e, ok := r.entries[ip]; if !ok { e = &loginEntry{} }`
abbrev pub or_zero : Option LoginEntry → LoginEntry
or_zero none = zero_entry
or_zero (some e) = e

-- The entry that stands for an address, present or not.
unfoldable pub entry : String → RateLimiter → LoginEntry
entry ip r = or_zero (lookup ip r.entries)

abbrev store : String → LoginEntry → RateLimiter → RateLimiter
store ip e r = record r { entries = insert ip e r.entries }

unfoldable pub new_rate_limiter : RateLimiter
new_rate_limiter = record {
  entries = [];
  max_failures = default_max_failures;
  lockout_duration = default_lockout;
}

-- `if n <= 0 { n = fallback }`
positive_or : ℕ → ℤ → ℕ
positive_or fallback (pos n) = if n == 0 then fallback else n
positive_or fallback (negsuc n) = fallback

unfoldable pub set_limits : ℤ → ℤ → RateLimiter → RateLimiter
unfolding positive_or
set_limits max_failures lockout r = record r {
  max_failures = positive_or default_max_failures max_failures;
  lockout_duration = positive_or default_lockout lockout;
}

unfoldable pub limits : RateLimiter → ℕ × ℕ
limits r = (r.max_failures, r.lockout_duration)

-- `now.Before(e.lockedUntil)`
abbrev pub is_locked : ℕ → LoginEntry → Bool
is_locked now e = ltb now e.locked_until

-- The counter after a failure, with the reset once the lockout has expired.
abbrev next_failures : RateLimiter → ℕ → LoginEntry → ℕ
next_failures r now e =
    suc (if leb r.max_failures e.failures && ltb e.locked_until now then 0 else e.failures)

count_failure : RateLimiter → ℕ → LoginEntry → LoginEntry × Bool
count_failure r now e =
    let counted = record e { failures = next_failures r now e; last_failure = now } in
    if leb r.max_failures (next_failures r now e)
    then (record counted { locked_until = now + r.lockout_duration }, true)
    else (counted, false)

pub fail_entry : RateLimiter → ℕ → LoginEntry → LoginEntry × Bool
unfolding count_failure
fail_entry r now e = if is_locked now e then (e, true) else count_failure r now e

unfoldable pub record_failure : String → ℕ → RateLimiter → RateLimiter × Bool
unfolding fail_entry entry
record_failure ip now r = let (e, locked) = fail_entry r now (entry ip r) in (store ip e r, locked)

unfoldable pub is_locked_out : String → ℕ → RateLimiter → Bool
is_locked_out ip now r = elim (lookup ip r.entries) [ none ↦ false | some e ↦ is_locked now e ]

-- Failures that `TryBegin` counts towards the threshold, which it does only after its check of
-- `lockedUntil`: none once a lockout has expired. It is 0 for an address that is locked out, too.
abbrev pub counted_failures : RateLimiter → LoginEntry → ℕ
counted_failures r e = if leb r.max_failures e.failures then 0 else e.failures

pub begin_entry : RateLimiter → ℕ → LoginEntry → LoginEntry × Bool
begin_entry r now e =
    if is_locked now e
    then (e, false)
    else if leb r.max_failures (counted_failures r e + e.in_flight)
    then (e, false)
    else (record e { in_flight = e.in_flight + 1 }, true)

unfoldable pub try_begin : String → ℕ → RateLimiter → RateLimiter × Bool
unfolding begin_entry entry
try_begin ip now r = let (e, admitted) = begin_entry r now (entry ip r) in (store ip e r, admitted)

-- `End`
unfoldable pub end_attempt : String → RateLimiter → RateLimiter
end_attempt ip r = elim (lookup ip r.entries) [
  | none ↦ r
  | some e ↦ if ltb 0 e.in_flight then store ip (record e { in_flight = e.in_flight - 1 }) r else r
]

-- Attempts in progress stay reserved; an entry without any is deleted.
forget : String → LoginEntry → RateLimiter → RateLimiter
forget ip e r =
    if ltb 0 e.in_flight
    then store ip (record zero_entry { in_flight = e.in_flight }) r
    else record r { entries = delete ip r.entries }

unfoldable pub reset : String → RateLimiter → RateLimiter
unfolding forget
reset ip r = elim (lookup ip r.entries) [ none ↦ r | some e ↦ forget ip e r ]

unfoldable pub clear : String → RateLimiter → RateLimiter × Bool
unfolding forget
clear ip r = elim (lookup ip r.entries) [
  | none ↦ (r, false)
  | some e ↦ if e.failures == 0 then (r, false) else (forget ip e r, true)
]

pub record Lockout : Type 0 where
  pub ip : String
  pub failures : ℕ
  pub locked_until : ℕ
  pub last_failure : ℕ

unfoldable pub lockouts : ℕ → Dict String LoginEntry → List Lockout
lockouts now [] = []
lockouts now ((ip, e) ∷ entries) =
    if e.failures == 0
    then lockouts now entries
    else record {
      ip = ip;
      failures = e.failures;
      locked_until = if is_locked now e then e.locked_until else 0;
      last_failure = e.last_failure;
    }
      ∷ lockouts now entries

-- `!l.LockedUntil.IsZero()`
abbrev pub is_out : Lockout → Bool
is_out l = not (l.locked_until == 0)

unfoldable pub lists_before : Lockout → Lockout → Bool
lists_before a b =
    if is_out a
    then (if is_out b then ltb b.last_failure a.last_failure else true)
    else (if is_out b then false else ltb b.last_failure a.last_failure)

unfoldable pub list : ℕ → RateLimiter → List Lockout
unfolding lockouts lists_before
list now r = sort_by lists_before (lockouts now r.entries)

-- `now.Sub(t)` stops at the largest Duration.
abbrev since : ℕ → ℕ → ℕ
since now t = min (now - t) (2 ^ 63 - 1)

-- Whether a round of `cleanup` keeps an entry.
unfoldable pub keeps : RateLimiter → ℕ → String → LoginEntry → Bool
keeps r now ip e =
    if ltb 0 e.in_flight
    then true
    else if leb r.max_failures e.failures
    then not (ltb e.locked_until now)
    else not (ltb r.lockout_duration (since now e.last_failure))

-- One tick of `cleanup`.
unfoldable pub cleanup : ℕ → RateLimiter → RateLimiter
unfolding keeps
cleanup now r = record r { entries = retain (keeps r now) r.entries }
