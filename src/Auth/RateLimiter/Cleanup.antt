-- ===== src/Auth/RateLimiter/Cleanup.antt =====
-- What the cleanup goroutine may drop, and the admin's list of lockouts.
use mathlib.Core.List.{Perm}
use squelch.Prelude.{ℕ, ◌+◌, ◌≤◌, String, arith, text_comparable, nat_comparable}
use squelch.Prelude.Dict.{IsKeyed}
use squelch.Prelude.Sort.{sort_by-perm, sort_by-IsSortedBy, IsSortedBy, IsWeakOrder}
use squelch.Auth.RateLimiter.{LoginEntry, RateLimiter, entry, lockouts, lists_before, list}
use squelch.Auth.RateLimiter.Admission.{World}

-- No lockout outlasts the last failure by more than the lockout duration.
abbrev pub IsDated : RateLimiter → LoginEntry → Type 0
IsDated r e = e.locked_until ≤ e.last_failure + r.lockout_duration

record Holds (w : World) : Type 0 where
  keyed : IsKeyed w.limiter.entries
  dated : (ip : String) → IsDated w.limiter (entry ip w.limiter)

lists_before-IsWeakOrder : IsWeakOrder lists_before
unfolding lists_before
lists_before-IsWeakOrder = record {
  asym = λ a b h. ground arith;
  negtrans = λ a b c h k. ground arith;
}

-- The admin's list holds each address with failures once per entry, locked-out ones first and
-- the latest failure first among each kind.
pub list_lem :
    (now : ℕ) (r : RateLimiter)
    → Perm (list now r) (lockouts now r.entries) × IsSortedBy lists_before (list now r)
unfolding list
list_lem now r = (
  sort_by-perm lists_before (lockouts now r.entries),
  sort_by-IsSortedBy lists_before lists_before-IsWeakOrder (lockouts now r.entries),
)
