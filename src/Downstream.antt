-- ===== src/Downstream.antt =====
-- backend/internal/downstream/pusher.go: one downstream of the service, with its channel of calls, its
-- grants and the deliveries it records. What the remote answers, the jitter, the clock and when the
-- context is cancelled are given; durations are nanoseconds, times in the tracker Unix seconds.
pub mod Retries
pub mod Calls
use squelch.Prelude.{
  ℕ, zero, suc, ◌+◌, ◌-◌, ◌*◌, ◌/◌, ◌%◌, Bool, true, false, not, ◌&&◌, ◌||◌, List, [], ◌∷◌, ◌++◌,
  Option, none, some, String, ltb, leb, nat_beq, if◌then◌else◌, length,
}
use squelch.Prelude.Int.{ℤ}
use squelch.Auth.Grants.{Grants, has_system_access}
use squelch.Delivery.{Result, Tracker, record_result}

abbrev pub second : ℕ
second = 1_000_000_000

abbrev pub max_backoff : ℕ
max_backoff = 30 * second

abbrev pub max_retries : ℕ
max_retries = 5

abbrev pub channel_capacity : ℕ
channel_capacity = 1000

-- What the filter and the deliveries read of a call.
pub record CallEvent : Type 0 where
  pub call_id : ℤ
  pub system : ℤ
  pub talkgroup : ℤ

-- What one push attempt came back with, `err` being `nil` or a text. `random` stands for the source of
-- the jitter, and `cancelled` says whether the context ends the wait that follows a failure.
pub record Attempt : Type 0 where
  pub status : ℕ
  pub millis : ℕ
  pub err : Option String
  pub random : ℕ
  pub cancelled : Bool

-- What a push leaves behind: how many attempts it made, the waits between them, and the result to
-- record, which a cancelled push has not.
pub record Pushed : Type 0 where
  pub attempts : ℕ
  pub waits : List ℕ
  pub recorded : Option Result

-- `rand.Int64N(int64(backoff) / 2)` is some number below its bound.
unfoldable pub wait_of : ℕ → ℕ → ℕ
wait_of backoff random =
    let wait = backoff + random % (backoff / 2) in
    if ltb max_backoff wait then max_backoff else wait

unfoldable pub next_backoff : ℕ → ℕ
next_backoff backoff = if ltb max_backoff (backoff * 2) then max_backoff else backoff * 2

abbrev pub succeeded : Attempt → Result
succeeded a = record { at = 0; ok = true; status = a.status; error = ""; millis = a.millis }

abbrev pub gave_up : Attempt → String → Result
gave_up a text = record { at = 0; ok = false; status = a.status; error = text; millis = a.millis }

-- A failed attempt with `left` attempts after it, and what those come to.
unfoldable pub after_failure : ℕ → ℕ → Attempt → String → Pushed → Pushed
unfolding wait_of
after_failure left backoff a text rest =
    if nat_beq left 0
    then record { attempts = 1; waits = []; recorded = some (gave_up a text) }
    else if a.cancelled
    then record { attempts = 1; waits = []; recorded = none }
    else record {
      attempts = suc rest.attempts;
      waits = wait_of backoff a.random ∷ rest.waits;
      recorded = rest.recorded;
    }

-- The loop, with `left` attempts to go; the code never enters it with none.
unfoldable pub push_from : ℕ → ℕ → (ℕ → Attempt) → ℕ → Pushed
unfolding after_failure next_backoff
push_from zero attempt remote backoff = record { attempts = 0; waits = []; recorded = none }
push_from (suc left) attempt remote backoff =
    let rest = push_from left (suc attempt) remote (next_backoff backoff) in
    elim ((remote attempt).err) [
      | none ↦ record { attempts = 1; waits = []; recorded = some (succeeded (remote attempt)) }
      | some text ↦ after_failure left backoff (remote attempt) text rest
    ]

unfoldable pub push_with_retry : (ℕ → Attempt) → Pushed
unfolding push_from
push_with_retry remote = push_from max_retries 0 remote second

-- A downstream: its channel, and the deliveries of all downstreams.
pub record Pusher : Type 0 where
  pub id : ℤ
  pub grants : Grants
  pub ch : List CallEvent
  pub deliveries : Tracker

-- `Notify`, for one downstream: a call that finds the channel full is dropped.
unfoldable pub notify : CallEvent → Pusher → Pusher
notify event p =
    if ltb (length p.ch) channel_capacity then record p { ch = p.ch ++ event ∷ [] } else p

abbrev record_pushed : ℤ → ℕ → Option Result → Tracker → Tracker
record_pushed id now none t = t
record_pushed id now (some r) t = (record_result id now r t).0

-- One turn of `runPusher`: the call that it takes from the channel, the one it pushes, and what
-- is recorded once the push has ended. With an empty channel the goroutine waits.
unfoldable pub run_pusher : (ℕ → Attempt) → ℕ → Pusher → Pusher × List CallEvent
unfolding push_with_retry
run_pusher remote now p = elim (p.ch) [
  | [] ↦ (p, [])
  | event ∷ ch ↦
      if not (has_system_access p.grants event.system event.talkgroup)
      then (record p { ch = ch }, [])
      else (
        record p {
          ch = ch;
          deliveries = record_pushed p.id now (push_with_retry remote).recorded p.deliveries;
        },
        event ∷ [],
      )
]
