-- ===== src/Downstream/Calls.antt =====
-- The calls that one downstream is sent.
use mathlib.Core.List.{append_assoc, append-nil}
use squelch.Prelude.{
  ℕ, ◌≡◌, refl, true, List, [], ◌∷◌, ◌++◌, ltb, if◌then◌else◌, length, arith, Bool-cases,
  List-cases, inl, inr, ◌∙◌, sym,
}
use squelch.Auth.Grants.{Grants, has_system_access}
use squelch.Downstream.{CallEvent, Attempt, Pusher, channel_capacity, notify, run_pusher}

-- What happens to a downstream: a call comes in, or its goroutine takes a turn, with what the remote
-- answers and the time at which the push ends.
pub data Step : Type 0 where
  comes : CallEvent → Step
  turn : (ℕ → Attempt) → ℕ → Step

-- The downstream, and the calls it pushed so far.
abbrev pub step : Step → Pusher × List CallEvent → Pusher × List CallEvent
step (comes event) (p, pushed) = (notify event p, pushed)
step (turn remote now) (p, pushed) =
    let (p', now_pushed) = run_pusher remote now p in (p', pushed ++ now_pushed)

abbrev pub run : List Step → Pusher × List CallEvent → Pusher × List CallEvent
run [] s = s
run (x ∷ xs) s = run xs (step x s)

-- The calls that found room in the channel.
abbrev pub accepted : List Step → Pusher × List CallEvent → List CallEvent
accepted [] s = []
accepted (comes event ∷ xs) s =
    if ltb (length (s.0).ch) channel_capacity
    then event ∷ accepted xs (step (comes event) s)
    else accepted xs (step (comes event) s)
accepted (turn remote now ∷ xs) s = accepted xs (step (turn remote now) s)

-- Those that the grants allow.
abbrev pub granted : Grants → List CallEvent → List CallEvent
granted grants [] = []
granted grants (e ∷ es) =
    if has_system_access grants e.system e.talkgroup
    then e ∷ granted grants es
    else granted grants es

granted-append :
    (grants : Grants) (xs ys : List CallEvent)
    → granted grants (xs ++ ys) ≡ granted grants xs ++ granted grants ys
granted-append grants [] ys = refl
granted-append grants (e ∷ xs) ys = ground (arith, granted-append grants xs ys)

-- What was pushed and what waits.
abbrev owed : Pusher × List CallEvent → List CallEvent
owed (p, pushed) = pushed ++ granted p.grants p.ch

step-grants :
    (x : Step) (p : Pusher) (pushed : List CallEvent) → (step x (p, pushed)).0.grants ≡ p.grants
unfolding notify run_pusher
step-grants (comes event) p pushed = ground arith
step-grants (turn remote now) p pushed = elim (List-cases (p.ch)) [
  | inl empty ↦ ground (arith, empty)
  | inr (e, ch, waiting) ↦ ground (arith, waiting)
]

owed-turn :
    (remote : ℕ → Attempt) (now : ℕ) (p : Pusher) (pushed : List CallEvent)
    → owed (step (turn remote now) (p, pushed)) ≡ owed (p, pushed)
unfolding run_pusher
owed-turn remote now p pushed = elim (List-cases (p.ch)) [
  | inl empty ↦ ground (arith, empty, append-nil pushed)
  | inr (e, ch, waiting) ↦ elim (Bool-cases (has_system_access p.grants e.system e.talkgroup)) [
    | inl heard ↦ ground (arith, waiting, heard, append_assoc pushed (e ∷ []) (granted p.grants ch))
    | inr unheard ↦ ground (arith, waiting, unheard, append-nil pushed)
  ]
]

owed-comes :
    (event : CallEvent) (p : Pusher) (pushed : List CallEvent)
    → ltb (length p.ch) channel_capacity ≡ true
    → owed (notify event p, pushed) ≡ owed (p, pushed) ++ granted p.grants (event ∷ [])
unfolding notify
owed-comes event p pushed room = ground (
  arith,
  room,
  granted-append p.grants p.ch (event ∷ []),
  append_assoc pushed (granted p.grants p.ch) (granted p.grants (event ∷ [])),
)

owed-run :
    (xs : List Step) (p : Pusher) (pushed : List CallEvent)
    → owed (run xs (p, pushed)) ≡ owed (p, pushed) ++ granted p.grants (accepted xs (p, pushed))
unfolding notify
owed-run [] p pushed = sym (append-nil (owed (p, pushed)))
owed-run (comes event ∷ xs) p pushed =
    let s' : Pusher × List CallEvent = (notify event p, pushed) in
    elim (Bool-cases (ltb (length p.ch) channel_capacity)) [
      | inl room ↦ ground (
        arith,
        room,
        owed-run xs (notify event p) pushed,
        owed-comes event p pushed room,
        granted-append p.grants (event ∷ []) (accepted xs s'),
        append_assoc (owed (p, pushed)) (granted p.grants (event ∷ []))
            (granted p.grants (accepted xs s')),
      )
      | inr full ↦ ground (arith, full, owed-run xs p pushed)
    ]
owed-run (turn remote now ∷ xs) p pushed =
    let (p', pushed') = step (turn remote now) (p, pushed) in
    let ih = owed-run xs p' pushed' in
    let same = owed-turn remote now p pushed in
    let kept = step-grants (turn remote now) p pushed in ih ∙ (rw (same, kept) refl)

-- Of the calls that find room in the channel of a downstream that starts with an empty one, those
-- that its grants allow are pushed in the order they came, each once: what was pushed so far,
-- followed by the allowed ones of the calls that wait, is all of them. Calls that come and turns
-- of the goroutine may follow each other in any order.
pub pushed_in_order :
    (xs : List Step) (p : Pusher)
    → p.ch ≡ []
    → (run xs (p, [])).1 ++ granted (run xs (p, [])).0.grants (run xs (p, [])).0.ch
      ≡ granted p.grants (accepted xs (p, []))
pushed_in_order xs p start = ground (arith, start, owed-run xs p [])
