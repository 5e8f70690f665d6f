-- ===== src/Calls/Limits/Cleanup.antt =====
-- The clean-up of the limiters against a table that is never cleaned up.
use squelch.Prelude.{
  ℕ, ◌+◌, ◌≤◌, ◌≡◌, ◌⊎◌, Bool, List, [], ◌∷◌, Option, none, some, refl, sym, ap, ltb, ◌==◌,
  int_comparable, length, arith, inl, inr, Bool-cases,
}
use squelch.Prelude.Int.{ℤ}
use squelch.Prelude.Dict.{
  IsKeyed, kept, lookup, insert, lookup-insert, lookup-retain, insert-IsKeyed,
}
use squelch.Calls.Limits.{
  ApiKeyLimiter, Limiters, rate_window_duration, roll, allow, is_fresh, clean_up, limiter_of, admit,
}
use squelch.Calls.Limits.Bound.{Arrival, rate_of, clean_up-IsKeyed}

-- What the requests are told.
abbrev pub answers : List Arrival → Limiters → List Bool
answers [] m = []
answers (a ∷ rest) m = let (ok, m') = admit a.now a.id (rate_of a) m in ok ∷ answers rest m'

-- The same where nothing is ever removed.
abbrev pub keeping_admit : ℕ → ℤ → ℕ → Limiters → Bool × Limiters
keeping_admit now id rate m =
    let (ok, l) = allow now (limiter_of now rate (lookup id m)) in (ok, insert id l m)

abbrev pub keeping_answers : List Arrival → Limiters → List Bool
keeping_answers [] m = []
keeping_answers (a ∷ rest) m =
    let (ok, m') = keeping_admit a.now a.id (rate_of a) m in ok ∷ keeping_answers rest m'

-- The clock does not go back.
abbrev pub IsForward : ℕ → List Arrival → Type 0
IsForward now [] = Unit
IsForward now (a ∷ rest) = (now ≤ a.now) × IsForward a.now rest

-- A limiter that is missing has a window that is over.
abbrev AgreeAt : ℕ → Option ApiKeyLimiter → Option ApiKeyLimiter → Type 0
AgreeAt now o k =
    (o ≡ k)
    ⊎ (o ≡ none)
      × (l : ApiKeyLimiter) × (k ≡ some l)
      × (l.window_start + rate_window_duration ≤ now)

abbrev Agree : ℕ → Limiters → Limiters → Type 0
Agree now m k = (id : ℤ) → AgreeAt now (lookup id m) (lookup id k)

AgreeAt-later :
    (now later : ℕ) (o k : Option ApiKeyLimiter) → now ≤ later → AgreeAt now o k → AgreeAt later o k
AgreeAt-later now later o k forward (inl same) = inl same
AgreeAt-later now later o k forward (inr (gone, l, found, over)) = inr (gone, l, found, omega arith)

-- Removing a stale limiter keeps the agreement.
AgreeAt-kept :
    (now : ℕ) (o k : Option ApiKeyLimiter) → AgreeAt now o k → AgreeAt now (kept (is_fresh now) o) k
AgreeAt-kept now none k h = h
AgreeAt-kept now (some l) k (inl same) = elim (Bool-cases (is_fresh now l)) [
  | inl fresh ↦ inl (rw (fresh) same)
  | inr stale ↦ inr (rw (stale) refl, l, sym same, ground (arith, stale))
]
AgreeAt-kept now (some l) k (inr (gone, l', found, over)) = ground (arith, gone)

Agree-clean_up :
    (now : ℕ) (m k : Limiters) → IsKeyed m → Agree now m k → Agree now (clean_up now m) k
unfolding clean_up
Agree-clean_up now m k keyed h id = elim (Bool-cases (ltb 100 (length m))) [
  | inl many ↦
      rw (many, lookup-retain (λ j l. is_fresh now l) id m keyed)
        (AgreeAt-kept now (lookup id m) (lookup id k) (h id))
  | inr few ↦ rw (few) (h id)
]

-- Both limiters answer the same and become the same.
allow_of_AgreeAt :
    (now rate : ℕ) (o k : Option ApiKeyLimiter)
    → AgreeAt now o k
    → allow now (limiter_of now rate o) ≡ allow now (limiter_of now rate k)
unfolding allow roll limiter_of
allow_of_AgreeAt now rate o k (inl same) = rw (same) refl
allow_of_AgreeAt now rate o k (inr (gone, l, found, over)) = ground (arith, gone, found)

Agree-insert :
    (now : ℕ) (id : ℤ) (l : ApiKeyLimiter) (m k : Limiters)
    → Agree now m k
    → Agree now (insert id l m) (insert id l k)
Agree-insert now id l m k h j = elim (Bool-cases (id == j)) [
  | inl same ↦ inl (rw (lookup-insert id j l m, lookup-insert id j l k, same) refl)
  | inr other ↦ rw (lookup-insert id j l m, lookup-insert id j l k, other) (h j)
]

answers_of_Agree :
    (now : ℕ) (arrivals : List Arrival) (m k : Limiters)
    → IsForward now arrivals
    → IsKeyed m
    → Agree now m k
    → answers arrivals m ≡ keeping_answers arrivals k
unfolding admit
answers_of_Agree now [] m k forward keyed h = refl
answers_of_Agree now (a ∷ rest) m k forward keyed h =
    let m' = clean_up a.now m in
    let later : Agree a.now m k =
      λ id. AgreeAt-later now a.now (lookup id m) (lookup id k) forward.0 (h id) in
    let cleaned = Agree-clean_up a.now m k keyed later in
    let alike =
      allow_of_AgreeAt a.now (rate_of a) (lookup a.id m') (lookup a.id k) (cleaned a.id) in
    let l = (allow a.now (limiter_of a.now (rate_of a) (lookup a.id k))).1 in
    rw (alike) (
      ap (λ more. (allow a.now (limiter_of a.now (rate_of a) (lookup a.id k))).0 ∷ more)
        (answers_of_Agree a.now rest (insert a.id l m') (insert a.id l k) forward.1
          (insert-IsKeyed a.id l m' (clean_up-IsKeyed a.now m keyed))
          (Agree-insert a.now a.id l m' k cleaned)))

-- Removing limiters is invisible: while the clock does not go back, requests get from a table in
-- which no key stands twice the answers that they would get if no limiter were ever removed.
pub answers_keeping :
    (now : ℕ) (arrivals : List Arrival) (m : Limiters)
    → IsForward now arrivals
    → IsKeyed m
    → answers arrivals m ≡ keeping_answers arrivals m
answers_keeping now arrivals m forward keyed =
    answers_of_Agree now arrivals m m forward keyed (λ id. inl refl)
