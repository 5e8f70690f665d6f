-- ===== src/Share/Expiry.antt =====
-- When a link stops working, as the public page and the list of the administrators see it.
use mathlib.Core.Path.{subst}
use native.Mathlib.Nat.{mod-eq_of_lt}
use squelch.Prelude.{
  ℕ, ◌+◌, ◌*◌, ◌^◌, ◌%◌, ◌≤◌, ◌<◌, ◌≡◌, Bool, ◌&&◌, Option, none, some, ap, ◌∙◌, inl, inr, ltb,
  ◌==◌, ==_iff, text_comparable, if◌then◌else◌, arith, Bool-cases, Option-cases,
}
use squelch.Prelude.Int.{ℤ, pos, negsuc, ltb_ℤ, ◌+ℤ◌}
use squelch.Calls.Fields.{wrap_int64}
use squelch.Share.{Asked, expiry_days, seconds_of, is_positive, is_shared_link_expired}

-- `sharedLinkMaxAge`: the days are read without the test of "" and "0".
unfoldable pub shared_link_max_age : Asked → ℤ
unfolding seconds_of
shared_link_max_age q = elim (q.get_setting "sharedLinkExpiry") [
  | none ↦ pos 0
  | some v ↦ elim (q.parse_int v) [
    | none ↦ pos 0
    | some (negsuc n) ↦ pos 0
    | some (pos n) ↦ if ltb 0 n then seconds_of n else pos 0
  ]
]

-- 0 is never.
unfoldable pub effective_expiry : Option ℤ → ℤ → ℤ → ℤ
effective_expiry expires_at created_at max_age =
    let fallback : ℤ =
      if ltb_ℤ (pos 0) max_age then wrap_int64 (created_at +ℤ max_age) else pos 0 in
    elim expires_at [ none ↦ fallback | some at ↦ if is_positive at then at else fallback ]

-- The `expired` of `SharedLinksList`.
unfoldable pub listed_expired : Asked → Option ℤ → ℤ → Bool
unfolding effective_expiry shared_link_max_age
listed_expired q expires_at created_at =
    let exp = effective_expiry expires_at created_at (shared_link_max_age q) in
    ltb_ℤ (pos 0) exp && ltb_ℤ exp q.now

-- A number of days that the setting allows.
abbrev pub AtMost : ℕ → Option ℕ → Type 0
AtMost n none = Unit
AtMost n (some d) = d ≤ n

pub seconds_of_bounded : (d : ℕ) → d ≤ 3650 → seconds_of d ≡ pos (d * 86400)
unfolding seconds_of
seconds_of_bounded d few =
    let small : d * 86400 % 2 ^ 64 ≡ d * 86400 = mod-eq_of_lt (omega arith) in ground (arith, small)

unfoldable seconds_or_zero : Option ℕ → ℤ
seconds_or_zero none = pos 0
seconds_or_zero (some d) = seconds_of d

-- What `strconv.ParseInt` makes of the two texts that the page tests for.
pub record ParsesZero (q : Asked) : Type 0 where
  pub empty : q.parse_int "" ≡ none
  pub zero_text : q.parse_int "0" ≡ some (pos 0)

max_age_of_days :
    (q : Asked) → ParsesZero q → shared_link_max_age q ≡ seconds_or_zero (expiry_days q)
unfolding shared_link_max_age seconds_or_zero
max_age_of_days q p = elim (Option-cases (q.get_setting "sharedLinkExpiry")) [
  | inl missing ↦ ground (arith, missing)
  | inr (v, set) ↦ elim (Bool-cases (v == "")) [
    | inl blank ↦ ground (arith, set, blank, ==_iff v "", p.empty)
    | inr filled ↦ elim (Bool-cases (v == "0")) [
      | inl nought ↦ ground (arith, set, filled, nought, ==_iff v "0", p.zero_text)
      | inr number ↦ ground (arith, set, filled, number)
    ]
  ]
]

expiry_days_positive : (q : Asked) (d : ℕ) → expiry_days q ≡ some d → 0 < d
expiry_days_positive q d h = ground (arith, h)

-- A time that is not negative and the lifetime after it stay int64 values.
pub sum_of_times :
    (t d : ℕ) → t ≤ 2 ^ 62 → d ≤ 3650 → wrap_int64 (pos t +ℤ pos (d * 86400)) ≡ pos (t + d * 86400)
unfolding wrap_int64 ◌+ℤ◌
sum_of_times t d early few = ground arith

-- The administrators' list and the public page agree on which links have expired: for a link made
-- at a time from 0 to 2 ^ 62, a setting of at most 3650 days, and a `ParseInt` that fails on the
-- empty text and reads "0" as 0, whatever the link's own expiry is.
pub listed_as_shown :
    (q : Asked) (expires_at : Option ℤ) (created : ℕ)
    → ParsesZero q
    → AtMost 3650 (expiry_days q)
    → created ≤ 2 ^ 62
    → listed_expired q expires_at (pos created) ≡ is_shared_link_expired q expires_at (pos created)
unfolding listed_expired effective_expiry is_shared_link_expired seconds_or_zero
listed_as_shown q expires_at created p few early = elim (Option-cases (expiry_days q)) [
  | inl never ↦ ground (arith, never, max_age_of_days q p)
  | inr (d, days) ↦
      let bound : d ≤ 3650 = subst (AtMost 3650) days few in
      let age : shared_link_max_age q ≡ pos (d * 86400) =
        max_age_of_days q p ∙ ap seconds_or_zero days ∙ seconds_of_bounded d bound in
      ground (
        arith,
        days,
        age,
        seconds_of_bounded d bound,
        expiry_days_positive q d days,
        sum_of_times created d early bound,
      )
]
