-- ===== src/Downstream/Retries.antt =====
-- One push: how often it is tried, how long it waits, and what it records.
use native.Mathlib.Nat.{mod-lt}
use squelch.Prelude.{
  ℕ, zero, suc, ◌+◌, ◌*◌, ◌/◌, ◌≤◌, ◌<◌, ◌≡◌, refl, sym, ◌⊎◌, Bool, true, false, List, [], ◌∷◌,
  none, some, String, nat_beq, if◌then◌else◌, length, arith, Option-cases, Bool-cases, inl, inr,
}
use squelch.Downstream.{
  second, max_retries, Attempt, Pushed, wait_of, next_backoff, succeeded, gave_up, after_failure,
  push_from, push_with_retry,
}

abbrev pub total : List ℕ → ℕ
total [] = 0
total (w ∷ ws) = w + total ws

-- The longest that the waits before the remaining attempts can be.
abbrev longest : ℕ → ℕ → ℕ
longest zero backoff = 0
longest (suc zero) backoff = 0
longest (suc (suc left)) backoff = backoff + backoff / 2 + longest (suc left) (next_backoff backoff)

wait_of_bounded :
    (backoff random : ℕ) → 2 ≤ backoff → wait_of backoff random ≤ backoff + backoff / 2
unfolding wait_of
wait_of_bounded backoff random h =
    let jitter = mod-lt random {m = backoff / 2} (omega arith) in ground (arith, jitter)

next_backoff_least : (backoff : ℕ) → 2 ≤ backoff → 2 ≤ next_backoff backoff
unfolding next_backoff
next_backoff_least backoff h = ground arith

-- The attempts and waits that are left.
record IsBounded (left backoff : ℕ) (p : Pushed) : Type 0 where
  pub most : p.attempts ≤ left
  pub exact : p.attempts ≡ length p.waits + (if nat_beq left 0 then 0 else 1)
  pub quick : total p.waits ≤ longest left backoff

after_failure-IsBounded :
    (left backoff : ℕ) (a : Attempt) (text : String) (rest : Pushed)
    → 2 ≤ backoff
    → IsBounded left (next_backoff backoff) rest
    → IsBounded (suc left) backoff (after_failure left backoff a text rest)
unfolding after_failure
after_failure-IsBounded zero backoff a text rest h r = record {
  most = ground arith;
  exact = ground arith;
  quick = ground arith;
}
after_failure-IsBounded (suc left) backoff a text rest h r = elim (Bool-cases (a.cancelled)) [
  | inl ended ↦ record {
    most = ground (arith, ended);
    exact = ground (arith, ended);
    quick = ground (arith, ended);
  }
  | inr goes ↦ record {
    most = ground (arith, goes, r.most);
    exact = ground (arith, goes, r.exact);
    quick = ground (arith, goes, r.quick, wait_of_bounded backoff a.random h);
  }
]

push_from-IsBounded :
    (left attempt : ℕ) (remote : ℕ → Attempt) (backoff : ℕ)
    → 2 ≤ backoff
    → IsBounded left backoff (push_from left attempt remote backoff)
unfolding push_from
push_from-IsBounded zero attempt remote backoff h = record {
  most = omega arith;
  exact = omega arith;
  quick = omega arith;
}
push_from-IsBounded (suc left) attempt remote backoff h =
    let rest = push_from left (suc attempt) remote (next_backoff backoff) in
    let r =
      push_from-IsBounded left (suc attempt) remote (next_backoff backoff)
        (next_backoff_least backoff h) in
    elim (Option-cases ((remote attempt).err)) [
      | inl answered ↦ record {
        most = ground (arith, answered);
        exact = ground (arith, answered);
        quick = ground (arith, answered);
      }
      | inr (text, failed) ↦
          let f = after_failure-IsBounded left backoff (remote attempt) text rest h r in
          record {
            most = ground (arith, failed, f.most);
            exact = ground (arith, failed, f.exact);
            quick = ground (arith, failed, f.quick);
          }
    ]

-- The attempts from one on that all failed.
abbrev pub all_failed : ℕ → ℕ → (ℕ → Attempt) → Bool
all_failed zero attempt remote = true
all_failed (suc n) attempt remote = elim ((remote attempt).err) [
  | none ↦ false
  | some text ↦ all_failed n (suc attempt) remote
]

-- With one attempt and four waits of a doubling backoff, each with the largest jitter.
longest_push : longest max_retries second ≡ 22_500_000_000
unfolding next_backoff
longest_push = refl

-- A push makes at most five attempts, waits once between each two of them, and waits no longer
-- than 22.5 seconds in all, whatever the remote answers and the jitter is.
pub push_bounded :
    (remote : ℕ → Attempt)
    → ((push_with_retry remote).attempts ≤ max_retries)
      × ((push_with_retry remote).attempts ≡ suc (length (push_with_retry remote).waits))
      × (2 * total (push_with_retry remote).waits ≤ 45 * second)
unfolding push_with_retry
push_bounded remote =
    let b = push_from-IsBounded max_retries 0 remote second (omega arith) in
    (b.most, omega (arith, b.exact), omega (arith, b.quick, longest_push))

-- How a push that is not cancelled ends: with the first attempt that gets an answer, or after
-- they all failed.
record IsAnswered (left attempt at : ℕ) (remote : ℕ → Attempt) (p : Pushed) : Type 0 where
  pub before : ℕ
  pub index : at ≡ attempt + before
  pub early : before < left
  pub failed : all_failed before attempt remote ≡ true
  pub answered : (remote at).err ≡ none
  pub made : p.attempts ≡ suc before
  pub result : p.recorded ≡ some (succeeded (remote at))

record IsGivenUp (left attempt : ℕ) (remote : ℕ → Attempt) (p : Pushed) : Type 0 where
  pub last : ℕ
  pub text : String
  pub index : suc last ≡ attempt + left
  pub failed : all_failed left attempt remote ≡ true
  pub said : (remote last).err ≡ some text
  pub made : p.attempts ≡ left
  pub result : p.recorded ≡ some (gave_up (remote last) text)

push_from-IsAnswered :
    (left attempt : ℕ) (remote : ℕ → Attempt) (backoff : ℕ)
    → (remote attempt).err ≡ none
    → IsAnswered (suc left) attempt attempt remote (push_from (suc left) attempt remote backoff)
unfolding push_from
push_from-IsAnswered left attempt remote backoff answered = record {
  before = 0;
  index = omega arith;
  early = omega arith;
  failed = refl;
  answered = answered;
  made = ground (arith, answered);
  result = ground (arith, answered);
}

push_from-settles :
    (left attempt : ℕ) (remote : ℕ → Attempt) (backoff : ℕ)
    → ((i : ℕ) → (remote i).cancelled ≡ false)
    → (((at : ℕ) × IsAnswered
          (suc left)
          attempt
          at
          remote
          (push_from (suc left) attempt remote backoff)))
      ⊎ IsGivenUp (suc left) attempt remote (push_from (suc left) attempt remote backoff)
unfolding push_from after_failure
push_from-settles zero attempt remote backoff goes = elim (Option-cases ((remote attempt).err)) [
  | inl answered ↦ inl (attempt, push_from-IsAnswered 0 attempt remote backoff answered)
  | inr (text, failed) ↦ inr (record {
    last = attempt;
    text = text;
    index = omega arith;
    failed = ground (arith, failed);
    said = failed;
    made = ground (arith, failed);
    result = ground (arith, failed);
  })
]
push_from-settles (suc left) attempt remote backoff goes =
    elim (Option-cases ((remote attempt).err)) [
      | inl answered ↦
          inl (attempt, push_from-IsAnswered (suc left) attempt remote backoff answered)
      | inr (text, failed) ↦
          elim (push_from-settles left (suc attempt) remote (next_backoff backoff) goes) [
            | inl (at, r) ↦ inl (
              at,
              record {
                before = suc r.before;
                index = omega (arith, r.index);
                early = omega (arith, r.early);
                failed = ground (arith, failed, r.failed);
                answered = r.answered;
                made = ground (arith, failed, goes attempt, r.made);
                result = ground (arith, failed, goes attempt, r.result);
              },
            )
            | inr r ↦ inr (record {
              last = r.last;
              text = r.text;
              index = omega (arith, r.index);
              failed = ground (arith, failed, r.failed);
              said = r.said;
              made = ground (arith, failed, goes attempt, r.made);
              result = ground (arith, failed, goes attempt, r.result);
            })
          ]
    ]

-- A push that is not cancelled records exactly one result. It is that of the first attempt with an
-- answer, if one of the five has it, after which there is no other attempt; else it is the failure
-- of the fifth, with its status and its error.
pub push_settles :
    (remote : ℕ → Attempt)
    → ((i : ℕ) → (remote i).cancelled ≡ false)
    → ((at : ℕ) × (at < max_retries)
        × (all_failed at 0 remote ≡ true)
        × ((remote at).err ≡ none)
        × ((push_with_retry remote).attempts ≡ suc at)
        × ((push_with_retry remote).recorded ≡ some (succeeded (remote at))))
      ⊎ ((text : String) × (all_failed max_retries 0 remote ≡ true)
          × ((remote 4).err ≡ some text)
          × ((push_with_retry remote).attempts ≡ max_retries)
          × ((push_with_retry remote).recorded ≡ some (gave_up (remote 4) text)))
unfolding push_with_retry
push_settles remote goes = elim (push_from-settles 4 0 remote second goes) [
  | inl (at, r) ↦
      let same : at ≡ r.before = omega (arith, r.index) in
      inl (
        at,
        omega (arith, same, r.early),
        rw same (r.failed),
        r.answered,
        omega (arith, same, r.made),
        r.result,
      )
  | inr r ↦
      let same : r.last ≡ 4 = omega (arith, r.index) in
      inr (r.text, r.failed, rw (sym same) (r.said), r.made, rw (sym same) (r.result))
]
