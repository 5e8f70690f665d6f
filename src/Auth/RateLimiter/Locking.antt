-- ===== src/Auth/RateLimiter/Locking.antt =====
-- When an address is locked out, for how long, and what ends it.
use squelch.Prelude.{
  ℕ, suc, ◌+◌, ◌<◌, ◌≡◌, refl, true, false, String, arith, ◌==◌, nat_comparable, ltb, leb,
  text_comparable, ==_iff, ==_refl, List, [], ◌∷◌, ◌↔◌, not, length, ap, ◌≢◌,
}
use squelch.Auth.RateLimiter.{
  RateLimiter, entry, zero_entry, counted_failures, fail_entry, is_locked, is_locked_out,
  record_failure, try_begin, clear, begin_entry,
}
use squelch.Auth.RateLimiter.Entries.{entry-record_failure, entry-clear, try_begin-admits}

pub is_locked_out-entry :
    (ip : String) (now : ℕ) (r : RateLimiter) → is_locked_out ip now r ≡ is_locked now (entry ip r)
unfolding is_locked_out entry
is_locked_out-entry ip now r = ground arith

-- The address's own entry after a failure.
entry-record_failure_self :
    (ip : String) (now : ℕ) (r : RateLimiter)
    → entry ip (record_failure ip now r).0 ≡ (fail_entry r now (entry ip r)).0
entry-record_failure_self ip now r = ground (arith, entry-record_failure ip ip now r, ==_iff ip ip)

record_failure-locks :
    (ip : String) (now : ℕ) (r : RateLimiter)
    → (record_failure ip now r).1 ≡ (fail_entry r now (entry ip r)).1
unfolding record_failure
record_failure-locks ip now r = refl

-- With a positive lockout, RecordFailure answers true exactly when the address is locked out
-- after it, and it leaves every other address's lockout as it was.
pub record_failure-is_locked_out :
    (ip j : String) (now t : ℕ) (r : RateLimiter)
    → 0 < r.lockout_duration
    → let (r', locked) = record_failure ip now r in
      (locked ≡ is_locked_out ip now r') × (ip ≢ j → is_locked_out j t r' ≡ is_locked_out j t r)
unfolding fail_entry
record_failure-is_locked_out ip j now t r h = (
  ground (
    arith,
    is_locked_out-entry ip now (record_failure ip now r).0,
    entry-record_failure_self ip now r,
    record_failure-locks ip now r,
  ),
  λ ne. ground (
    arith,
    ==_iff ip j,
    is_locked_out-entry j t (record_failure ip now r).0,
    is_locked_out-entry j t r,
    entry-record_failure ip j now r,
  ),
)

-- A failure that starts a lockout locks the address out for exactly the lockout duration.
pub lockout_lasts :
    (ip : String) (now t : ℕ) (r : RateLimiter)
    → is_locked_out ip now r ≡ false
    → (record_failure ip now r).1 ≡ true
    → is_locked_out ip t (record_failure ip now r).0 ≡ ltb t (now + r.lockout_duration)
unfolding fail_entry
lockout_lasts ip now t r free locks = ground (
  arith,
  is_locked_out-entry ip now r,
  is_locked_out-entry ip t (record_failure ip now r).0,
  entry-record_failure_self ip now r,
  record_failure-locks ip now r,
)

-- TryBegin admits an attempt exactly when the address is not locked out and its counted failures
-- and attempts in progress are below the threshold.
pub try_begin-admits_iff :
    (ip : String) (now : ℕ) (r : RateLimiter)
    → ((try_begin ip now r).1 ≡ true) ↔ (
        (is_locked_out ip now r ≡ false)
        × (counted_failures r (entry ip r) + (entry ip r).in_flight < r.max_failures))
unfolding begin_entry
try_begin-admits_iff ip now r =
    ground (arith, is_locked_out-entry ip now r, try_begin-admits ip now r)

-- Failures at one address, one after another.
abbrev pub failures_at : String → List ℕ → RateLimiter → RateLimiter
failures_at ip [] r = r
failures_at ip (t ∷ ts) r = failures_at ip ts (record_failure ip t r).0

-- Below the threshold nothing locks, and the counter is the number of failures.
failures_at_count :
    (ip : String) (ts : List ℕ) (r : RateLimiter)
    → (entry ip r).locked_until ≡ 0
    → (entry ip r).failures + length ts < r.max_failures
    → let r' = failures_at ip ts r in
      ((entry ip r').locked_until ≡ 0)
      × ((entry ip r').failures ≡ (entry ip r).failures + length ts)
      × (r'.max_failures ≡ r.max_failures)
unfolding record_failure fail_entry
failures_at_count ip [] r z h = (z, omega arith, refl)
failures_at_count ip (t ∷ ts) r z h =
    ground
      (arith, entry-record_failure_self ip t r, failures_at_count ip ts (record_failure ip t r).0)

-- An address with a clean record is locked out by its max_failures-th failure and not before.
pub threshold_locks :
    (ip : String) (ts : List ℕ) (t u : ℕ) (r : RateLimiter)
    → entry ip r ≡ zero_entry
    → length ts < r.max_failures
    → let r' = failures_at ip ts r in
      (is_locked_out ip u r' ≡ false)
      × ((record_failure ip t r').1 ≡ leb r.max_failures (suc (length ts)))
unfolding fail_entry
threshold_locks ip ts t u r z h =
    let n = failures_at_count ip ts r (ap (λ e. e.locked_until) z) (ground arith) in
    let f = ap (λ e. e.failures) z in
    ground (
      arith,
      n,
      f,
      is_locked_out-entry ip u (failures_at ip ts r),
      record_failure-locks ip t (failures_at ip ts r),
    )

clear-cleared : (ip : String) (r : RateLimiter) → (clear ip r).1 ≡ not ((entry ip r).failures == 0)
unfolding clear entry
clear-cleared ip r = ground arith

-- Clear reports exactly whether the address has failures on record; afterwards it has none, is
-- not locked out at any time, and keeps its attempts in progress, and no other address changes.
pub clear_lem :
    (ip j : String) (t : ℕ) (r : RateLimiter)
    → let (r', cleared) = clear ip r in
      (cleared ≡ not ((entry ip r).failures == 0))
      × ((entry ip r').failures ≡ 0)
      × ((entry ip r').in_flight ≡ (entry ip r).in_flight)
      × (cleared ≡ true → is_locked_out ip t r' ≡ false)
      × (ip ≢ j → entry j r' ≡ entry j r)
clear_lem ip j t r =
    let own = entry-clear ip ip r in
    let same = ==_refl ip in
    (
      clear-cleared ip r,
      ground (arith, own, same),
      ground (arith, own, same),
      λ done.
          ground (arith, own, same, clear-cleared ip r, is_locked_out-entry ip t (clear ip r).0),
      λ ne. ground (arith, ==_iff ip j, entry-clear ip j r),
    )
