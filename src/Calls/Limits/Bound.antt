-- ===== src/Calls/Limits/Bound.antt =====
-- How many uploads of one key are let in.
use squelch.Prelude.{
  ℕ, suc, ◌+◌, ◌-◌, ◌*◌, ◌≤◌, ◌<◌, Bool, true, false, ◌&&◌, List, [], ◌∷◌, Option, none, some, ltb,
  ◌==◌, ==_iff, int_comparable, if◌then◌else◌, arith, Option-cases, inl, inr, Bool-cases,
}
use squelch.Prelude.Int.{ℤ}
use squelch.Prelude.Dict.{
  IsKeyed, lookup, lookup-insert, lookup-retain, retain-IsKeyed, insert-IsKeyed,
}
use squelch.Calls.Limits.{
  ApiKeyLimiter, Limiters, rate_window_duration, max_call_rate_per_min, roll, allow, is_fresh,
  clean_up, limiter_of, admit, call_rate,
}

-- The rate of a request is at most the largest one.
pub call_rate_bounded :
    (of_key of_setting : Option ℤ) → call_rate of_key of_setting ≤ max_call_rate_per_min
unfolding call_rate
call_rate_bounded of_key of_setting = ground arith

-- A request: when it comes, its key, and what the key and the setting say of the rate.
pub record Arrival : Type 0 where
  pub now : ℕ
  pub id : ℤ
  pub of_key : Option ℤ
  pub of_setting : Option ℤ

abbrev pub rate_of : Arrival → ℕ
rate_of a = call_rate a.of_key a.of_setting

-- How many of the requests of one key are let in.
abbrev pub admitted : ℤ → List Arrival → Limiters → ℕ
admitted id [] m = 0
admitted id (a ∷ rest) m =
    let (ok, m') = admit a.now a.id (rate_of a) m in
    let more = admitted id rest m' in if a.id == id && ok then suc more else more

-- Every request comes in the minute from `start` on.
abbrev pub AllWithin : ℕ → List Arrival → Type 0
AllWithin start [] = Unit
AllWithin start (a ∷ rest) =
    ((start ≤ a.now) × (a.now < start + rate_window_duration)) × AllWithin start rest

-- What a key may still be let in, at most.
abbrev left : ℕ → Option ApiKeyLimiter → ℕ
left start none = max_call_rate_per_min
left start (some l) =
    max_call_rate_per_min
    - l.count
    + (if ltb l.window_start start then max_call_rate_per_min else 0)

abbrev spent : Bool → ℕ
spent true = 1
spent false = 0

left-allow :
    (start now rate : ℕ) (o : Option ApiKeyLimiter)
    → start ≤ now
    → now < start + rate_window_duration
    → rate ≤ max_call_rate_per_min
    → let (ok, l) = allow now (limiter_of now rate o) in
      spent ok + left start (some l) ≤ left start o
unfolding allow roll limiter_of
left-allow start now rate none from to most = ground arith
left-allow start now rate (some l) from to most = ground arith

left-clean_up :
    (start now : ℕ) (id : ℤ) (m : Limiters)
    → now < start + rate_window_duration
    → IsKeyed m
    → left start (lookup id (clean_up now m)) ≤ left start (lookup id m)
unfolding clean_up
left-clean_up start now id m to keyed = elim (Option-cases (lookup id m)) [
  | inl absent ↦ ground (arith, absent, lookup-retain (λ k l. is_fresh now l) id m keyed)
  | inr (l, present) ↦ ground (arith, present, lookup-retain (λ k l. is_fresh now l) id m keyed)
]

pub clean_up-IsKeyed : (now : ℕ) (m : Limiters) → IsKeyed m → IsKeyed (clean_up now m)
unfolding clean_up
clean_up-IsKeyed now m keyed = ground (arith, retain-IsKeyed (λ k l. is_fresh now l) m keyed)

left_bounded : (start : ℕ) (o : Option ApiKeyLimiter) → left start o ≤ 2 * max_call_rate_per_min
left_bounded start o = ground arith

left-admit :
    (start now rate : ℕ) (key id : ℤ) (m : Limiters)
    → start ≤ now
    → now < start + rate_window_duration
    → rate ≤ max_call_rate_per_min
    → IsKeyed m
    → let (ok, m') = admit now key rate m in
      spent (key == id && ok) + left start (lookup id m') ≤ left start (lookup id m)
unfolding admit
left-admit start now rate key id m from to most keyed = elim (Bool-cases (key == id)) [
  | inl same ↦ ground (
    arith,
    same,
    ==_iff key id,
    lookup-insert key id (allow now (limiter_of now rate (lookup key (clean_up now m)))).1
        (clean_up now m),
    left-allow start now rate (lookup key (clean_up now m)) from to most,
    left-clean_up start now id m to keyed,
  )
  | inr other ↦ ground (
    arith,
    other,
    lookup-insert key id (allow now (limiter_of now rate (lookup key (clean_up now m)))).1
        (clean_up now m),
    left-clean_up start now id m to keyed,
  )
]

pub admit-IsKeyed :
    (now rate : ℕ) (key : ℤ) (m : Limiters) → IsKeyed m → IsKeyed (admit now key rate m).1
unfolding admit clean_up
admit-IsKeyed now rate key m keyed =
    insert-IsKeyed key (allow now (limiter_of now rate (lookup key (clean_up now m)))).1
      (clean_up now m) (clean_up-IsKeyed now m keyed)

admitted-left :
    (id : ℤ) (start : ℕ) (arrivals : List Arrival) (m : Limiters)
    → AllWithin start arrivals
    → IsKeyed m
    → admitted id arrivals m ≤ left start (lookup id m)
admitted-left id start [] m within keyed = omega arith
admitted-left id start (a ∷ rest) m within keyed = ground (
  arith,
  left-admit start a.now (rate_of a) a.id id m within.0.0 within.0.1
      (call_rate_bounded a.of_key a.of_setting) keyed,
  admitted-left id start rest (admit a.now a.id (rate_of a) m).1 within.1
      (admit-IsKeyed a.now (rate_of a) a.id m keyed),
)

-- Whatever other keys ask and whatever the rates are, at most 1200 requests of one key, twice the
-- largest rate, are let in within one minute, from any table in which no key stands twice.
pub admitted_bounded :
    (id : ℤ) (start : ℕ) (arrivals : List Arrival) (m : Limiters)
    → AllWithin start arrivals
    → IsKeyed m
    → admitted id arrivals m ≤ 2 * max_call_rate_per_min
admitted_bounded id start arrivals m within keyed =
    ground (arith, admitted-left id start arrivals m within keyed, left_bounded start (lookup id m))
