-- ===== src/Examples/SignIn.antt =====
-- One address that fails to sign in until it is locked out, and one rotated refresh token.
use squelch.Prelude.{
  ℕ, ◌+◌, ◌*◌, ◌≤◌, ◌<◌, ◌≡◌, ◌↔◌, refl, true, false, [], ◌∷◌, String, arith, text_comparable,
  nat_comparable,
}
use squelch.Prelude.Int.{pos}
use squelch.Prelude.Dict.{lookup, insert}
use squelch.Auth.RateLimiter.{
  RateLimiter, new_rate_limiter, record_failure, try_begin, is_locked_out, entry, second,
  counted_failures,
}
use squelch.Auth.RateLimiter.Admission.{
  World, Reach, start, begins, fails, next, here, bump, drop, attempts_bounded,
}
use squelch.Auth.RateLimiter.Locking.{failures_at}
use squelch.Auth.ReplayCache.{ReplayCache, ReplayCacheEntry, new_replay_cache, refresh_replay_grace}

abbrev address : String
address = "203.0.113.7"

abbrev other : String
other = "198.51.100.9"

abbrev noon : ℕ
noon = 1_000_000 * second

abbrev twice_failed : RateLimiter
twice_failed = failures_at address (noon ∷ (noon + 1) ∷ []) new_rate_limiter

third_failure : (record_failure address (noon + 2) twice_failed).1 ≡ true
unfolding new_rate_limiter record_failure lookup insert
third_failure = refl

abbrev idle : World
idle = start new_rate_limiter

-- An attempt is admitted,
abbrev admitted : World
admitted = record idle {
  limiter = (try_begin address noon idle.limiter).0;
  pending = bump idle.pending address;
}

-- and fails.
abbrev refused : World
refused = record {
  limiter = (record_failure address (noon + 1) admitted.limiter).0;
  pending = drop admitted.pending address;
  settled = bump admitted.settled address;
}

refused_reached : Reach idle refused
unfolding new_rate_limiter try_begin record_failure lookup insert
refused_reached =
    next (next here (begins address noon refl)) (fails address (noon + 1) (omega arith))

attempts_bounded_example :
    ((entry address refused.limiter).in_flight ≡ refused.pending address + refused.settled address)
    × (counted_failures new_rate_limiter (entry address refused.limiter) + refused.pending address
        ≤ new_rate_limiter.max_failures)
    × (((try_begin address (noon + 2) refused.limiter).1 ≡ true) ↔ (
        (is_locked_out address (noon + 2) refused.limiter ≡ false)
        × (counted_failures new_rate_limiter (entry address refused.limiter)
              + refused.pending address
              + refused.settled address
            < new_rate_limiter.max_failures)))
unfolding new_rate_limiter
attempts_bounded_example =
    attempts_bounded new_rate_limiter {w = refused} refl refused_reached address (noon + 2)

abbrev rotated : ReplayCacheEntry
rotated = record {
  access_token = "jwt";
  refresh_raw = "raw";
  user_id = pos 7;
  username = "ada";
  role = "listener";
  family_id = "f1";
  expires_at = 0;
}

abbrev cache : ReplayCache
cache = new_replay_cache refresh_replay_grace
