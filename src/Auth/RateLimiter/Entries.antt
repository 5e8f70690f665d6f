-- ===== src/Auth/RateLimiter/Entries.antt =====
-- What each method of the limiter does to the entry of each address, present or not.
use squelch.Prelude.{
  ℕ, ◌-◌, ◌≡◌, refl, String, arith, ◌==◌, text_comparable, if◌then◌else◌, not, ◌&&◌, nat_comparable,
  ==_iff,
}
use squelch.Prelude.Dict.{
  lookup, IsKeyed, lookup-insert, lookup-delete, lookup-retain, insert-IsKeyed, delete-IsKeyed,
}
use squelch.Auth.RateLimiter.{
  LoginEntry, RateLimiter, entry, or_zero, zero_entry, fail_entry, forget, keeps, record_failure,
  try_begin, end_attempt, reset, clear, cleanup, begin_entry,
}

pub entry-try_begin :
    (ip j : String) (now : ℕ) (r : RateLimiter)
    → entry j (try_begin ip now r).0
      ≡ (if ip == j then (begin_entry r now (entry ip r)).0 else entry j r)
unfolding try_begin entry
entry-try_begin ip j now r =
    ground (arith, lookup-insert ip j (begin_entry r now (entry ip r)).0 r.entries)

-- The answer is the one for the address's entry.
pub try_begin-admits :
    (ip : String) (now : ℕ) (r : RateLimiter)
    → (try_begin ip now r).1 ≡ (begin_entry r now (entry ip r)).1
unfolding try_begin
try_begin-admits ip now r = refl

pub entry-record_failure :
    (ip j : String) (now : ℕ) (r : RateLimiter)
    → entry j (record_failure ip now r).0
      ≡ (if ip == j then (fail_entry r now (entry ip r)).0 else entry j r)
unfolding record_failure entry
entry-record_failure ip j now r =
    ground (arith, lookup-insert ip j (fail_entry r now (entry ip r)).0 r.entries)

-- `End` on an entry; a missing one counts no attempt.
unfoldable pub end_entry : LoginEntry → LoginEntry
end_entry e = record e { in_flight = e.in_flight - 1 }

pub entry-end_attempt :
    (ip j : String) (r : RateLimiter)
    → entry j (end_attempt ip r) ≡ (if ip == j then end_entry (entry ip r) else entry j r)
unfolding end_attempt entry end_entry
entry-end_attempt ip j r =
    ground
      (arith, ==_iff ip j, lookup-insert ip j (end_entry (or_zero (lookup ip r.entries))) r.entries)

-- `Reset` and `Clear` leave the attempts in progress alone.
abbrev pub forgotten : LoginEntry → LoginEntry
forgotten e = record zero_entry { in_flight = e.in_flight }

entry-forget :
    (ip j : String) (e : LoginEntry) (r : RateLimiter)
    → entry j (forget ip e r) ≡ (if ip == j then forgotten e else entry j r)
unfolding forget entry
entry-forget ip j e r =
    ground (arith, lookup-insert ip j (forgotten e) r.entries, lookup-delete ip j r.entries)

pub entry-reset :
    (ip j : String) (r : RateLimiter)
    → entry j (reset ip r) ≡ (if ip == j then forgotten (entry ip r) else entry j r)
unfolding reset entry
entry-reset ip j r =
    ground (arith, ==_iff ip j, entry-forget ip j (or_zero (lookup ip r.entries)) r)

pub entry-clear :
    (ip j : String) (r : RateLimiter)
    → entry j (clear ip r).0
      ≡ (if ip == j && not ((entry ip r).failures == 0) then forgotten (entry ip r) else entry j r)
unfolding clear entry
entry-clear ip j r =
    ground (arith, ==_iff ip j, entry-forget ip j (or_zero (lookup ip r.entries)) r)

pub entry-cleanup :
    (j : String) (now : ℕ) (r : RateLimiter)
    → IsKeyed r.entries
    → entry j (cleanup now r) ≡ (if keeps r now j (entry j r) then entry j r else zero_entry)
unfolding cleanup entry
entry-cleanup j now r k = ground (arith, lookup-retain (keeps r now) j r.entries k)

forget-IsKeyed :
    (ip : String) (e : LoginEntry) (r : RateLimiter)
    → IsKeyed r.entries
    → IsKeyed (forget ip e r).entries
unfolding forget
forget-IsKeyed ip e r k =
    ground (arith, insert-IsKeyed ip (forgotten e) r.entries k, delete-IsKeyed ip r.entries k)

pub reset-IsKeyed :
    (ip : String) (r : RateLimiter) → IsKeyed r.entries → IsKeyed (reset ip r).entries
unfolding reset
reset-IsKeyed ip r k = ground (arith, forget-IsKeyed ip (or_zero (lookup ip r.entries)) r k)

pub clear-IsKeyed :
    (ip : String) (r : RateLimiter) → IsKeyed r.entries → IsKeyed (clear ip r).0.entries
unfolding clear
clear-IsKeyed ip r k = ground (arith, forget-IsKeyed ip (or_zero (lookup ip r.entries)) r k)

pub end_attempt-IsKeyed :
    (ip : String) (r : RateLimiter) → IsKeyed r.entries → IsKeyed (end_attempt ip r).entries
unfolding end_attempt end_entry
end_attempt-IsKeyed ip r k =
    ground (arith, insert-IsKeyed ip (end_entry (or_zero (lookup ip r.entries))) r.entries k)
