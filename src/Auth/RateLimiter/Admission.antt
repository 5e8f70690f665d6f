-- ===== src/Auth/RateLimiter/Admission.antt =====
-- Sign-in attempts that interleave: PostLogin of backend/internal/handler/auth/auth.go calls
-- TryBegin, then RecordFailure or Reset, then (deferred) End, while other requests run.
use squelch.Prelude.{
  [], ◌∙◌, ℕ, ◌+◌, ◌-◌, ◌≤◌, ◌<◌, ◌≡◌, refl, true, false, String, arith, ◌==◌, text_comparable,
  if◌then◌else◌, ==_iff, ◌↔◌, Option-cases, inl, inr,
}
use squelch.Prelude.Dict.{lookup, IsKeyed, insert-IsKeyed, retain-IsKeyed}
use squelch.Auth.RateLimiter.{
  LoginEntry, RateLimiter, entry, counted_failures, fail_entry, forget, keeps, record_failure,
  try_begin, end_attempt, reset, clear, cleanup, begin_entry, is_locked_out,
}
use squelch.Auth.RateLimiter.Entries.{
  try_begin-admits, entry-try_begin, entry-record_failure, entry-end_attempt, entry-reset,
  entry-clear, entry-cleanup, end_entry, reset-IsKeyed, clear-IsKeyed, end_attempt-IsKeyed,
}

-- The limiter, and for each address the attempts whose outcome is open (`pending`) and those that
-- have recorded it and not ended (`settled`).
pub record World : Type 0 where
  pub limiter : RateLimiter
  pub pending : String → ℕ
  pub settled : String → ℕ

abbrev pub update : (String → ℕ) → String → ℕ → String → ℕ
update f k v j = if k == j then v else f j

abbrev pub bump : (String → ℕ) → String → String → ℕ
bump f k = update f k (f k + 1)

abbrev pub drop : (String → ℕ) → String → String → ℕ
drop f k = update f k (f k - 1)

-- One locked method call of some request, of the admin or of the cleanup goroutine.
pub data Step (w : World) : World → Type 0 where
  begins :
      (ip : String) (now : ℕ)
      → (try_begin ip now w.limiter).1 ≡ true
      → Step w (record w { limiter = (try_begin ip now w.limiter).0; pending = bump w.pending ip })
  is_refused :
      (ip : String) (now : ℕ)
      → (try_begin ip now w.limiter).1 ≡ false
      → Step w (record w { limiter = (try_begin ip now w.limiter).0 })
  fails :
      (ip : String) (now : ℕ)
      → 0 < w.pending ip
      → Step w (record {
        limiter = (record_failure ip now w.limiter).0;
        pending = drop w.pending ip;
        settled = bump w.settled ip;
      })
  succeeds :
      (ip : String)
      → 0 < w.pending ip
      → Step w (record {
        limiter = reset ip w.limiter;
        pending = drop w.pending ip;
        settled = bump w.settled ip;
      })
  ends :
      (ip : String)
      → 0 < w.settled ip
      → Step w (record w { limiter = end_attempt ip w.limiter; settled = drop w.settled ip })
  -- A panic in the handler still runs the deferred End.
  panics :
      (ip : String)
      → 0 < w.pending ip
      → Step w (record w { limiter = end_attempt ip w.limiter; pending = drop w.pending ip })
  clears : (ip : String) → Step w (record w { limiter = (clear ip w.limiter).0 })
  cleans : (now : ℕ) → Step w (record w { limiter = cleanup now w.limiter })

pub data Reach (w : World) : World → Type 0 where
  here : Reach w w
  next : {u v : World} → Reach w u → Step u v → Reach w v

-- What holds at one address.
abbrev pub Fits : RateLimiter → LoginEntry → ℕ → ℕ → Type 0
Fits r e p s = (e.in_flight ≡ p + s) × (counted_failures r e + p ≤ r.max_failures)

pub record Inv (w : World) : Type 0 where
  pub keyed : IsKeyed w.limiter.entries
  pub fits : (ip : String) → Fits w.limiter (entry ip w.limiter) (w.pending ip) (w.settled ip)

IsKeyed-Step : {w v : World} → Step w v → IsKeyed w.limiter.entries → IsKeyed v.limiter.entries
unfolding try_begin record_failure reset end_attempt clear cleanup forget
IsKeyed-Step {w} (begins ip now a) k = insert-IsKeyed ip _ w.limiter.entries k
IsKeyed-Step {w} (is_refused ip now a) k = insert-IsKeyed ip _ w.limiter.entries k
IsKeyed-Step {w} (fails ip now p) k = insert-IsKeyed ip _ w.limiter.entries k
IsKeyed-Step {w} (succeeds ip p) k = reset-IsKeyed ip w.limiter k
IsKeyed-Step {w} (ends ip p) k = end_attempt-IsKeyed ip w.limiter k
IsKeyed-Step {w} (panics ip p) k = end_attempt-IsKeyed ip w.limiter k
IsKeyed-Step {w} (clears ip) k = clear-IsKeyed ip w.limiter k
IsKeyed-Step {w} (cleans now) k = retain-IsKeyed _ w.limiter.entries k

max-Step : {w v : World} → Step w v → v.limiter.max_failures ≡ w.limiter.max_failures
unfolding try_begin record_failure reset end_attempt clear cleanup forget
max-Step (begins ip now a) = refl
max-Step (is_refused ip now a) = refl
max-Step (fails ip now p) = refl
max-Step (succeeds ip p) = ground arith
max-Step (ends ip p) = ground arith
max-Step (panics ip p) = ground arith
max-Step (clears ip) = ground arith
max-Step (cleans now) = refl

Fits-Step :
    {w v : World}
    → Step w v
    → IsKeyed w.limiter.entries
    → (j : String) → Fits w.limiter (entry j w.limiter) (w.pending j) (w.settled j)
    → Fits w.limiter (entry j v.limiter) (v.pending j) (v.settled j)
unfolding begin_entry fail_entry end_entry keeps
Fits-Step {w} (begins ip now a) k j f =
    ground
      (arith, ==_iff ip j, entry-try_begin ip j now w.limiter, try_begin-admits ip now w.limiter)
Fits-Step {w} (is_refused ip now a) k j f =
    ground
      (arith, ==_iff ip j, entry-try_begin ip j now w.limiter, try_begin-admits ip now w.limiter)
Fits-Step {w} (fails ip now p) k j f =
    ground (arith, ==_iff ip j, entry-record_failure ip j now w.limiter)
Fits-Step {w} (succeeds ip p) k j f = ground (arith, ==_iff ip j, entry-reset ip j w.limiter)
Fits-Step {w} (ends ip p) k j f = ground (arith, ==_iff ip j, entry-end_attempt ip j w.limiter)
Fits-Step {w} (panics ip p) k j f = ground (arith, ==_iff ip j, entry-end_attempt ip j w.limiter)
Fits-Step {w} (clears ip) k j f = ground (arith, ==_iff ip j, entry-clear ip j w.limiter)
Fits-Step {w} (cleans now) k j f = ground (arith, entry-cleanup j now w.limiter k)

pub Step-Inv : {w v : World} → Step w v → Inv w → Inv v
Step-Inv {w} {v} s h = record {
  keyed = IsKeyed-Step s h.keyed;
  fits = λ ip. let f = Fits-Step s h.keyed ip (h.fits ip) in ground (arith, max-Step s);
}

Reach-Inv : {w v : World} → Reach w v → Inv w → Inv v
Reach-Inv here h = h
Reach-Inv (next r s) h = Step-Inv s (Reach-Inv r h)

Reach-max : {w v : World} → Reach w v → v.limiter.max_failures ≡ w.limiter.max_failures
Reach-max here = refl
Reach-max (next r s) = max-Step s ∙ Reach-max r

-- A limiter that no request has reached.
abbrev pub start : RateLimiter → World
start r = record { limiter = r; pending = λ _. 0; settled = λ _. 0 }

pub start-Inv : (r : RateLimiter) → r.entries ≡ [] → Inv (start r)
unfolding entry lookup
start-Inv r e = record { keyed = rw e tt; fits = λ ip. rw e (ground arith) }

-- From an empty limiter, after any interleaving of sign-ins, panics, admin clears and cleanups,
-- an address's `in_flight` counts its unfinished attempts, and the failures that count against it
-- together with the attempts whose outcome is open never exceed the threshold. `TryBegin` admits
-- another attempt at any time exactly if the address is not locked out then and the failures that
-- count against it and its unfinished attempts are together below the threshold.
pub attempts_bounded :
    (r : RateLimiter) {w : World}
    → r.entries ≡ []
    → Reach (start r) w
    → (ip : String) (now : ℕ)
    → ((entry ip w.limiter).in_flight ≡ w.pending ip + w.settled ip)
      × (counted_failures r (entry ip w.limiter) + w.pending ip ≤ r.max_failures)
      × (((try_begin ip now w.limiter).1 ≡ true) ↔ (
          (is_locked_out ip now w.limiter ≡ false)
          × (counted_failures r (entry ip w.limiter) + w.pending ip + w.settled ip
              < r.max_failures)))
unfolding begin_entry is_locked_out entry
attempts_bounded r {w} e reach ip now =
    let f = (Reach-Inv reach (start-Inv r e)).fits ip in
    elim (Option-cases (lookup ip w.limiter.entries)) [
      | inl missing ↦ ground (arith, missing, Reach-max reach, try_begin-admits ip now w.limiter)
      | inr (l, found) ↦ ground (arith, found, Reach-max reach, try_begin-admits ip now w.limiter)
    ]
