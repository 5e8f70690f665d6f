-- ===== src/Examples/Pushes.antt =====
-- A downstream that answers its third attempt, and two calls of which it may hear one.
use squelch.Prelude.{
  ℕ, zero, suc, ◌*◌, ◌≤◌, ◌<◌, ◌≡◌, refl, ◌⊎◌, true, false, List, [], ◌∷◌, ◌++◌, none, some, String,
  length,
}
use squelch.Prelude.Int.{pos}
use squelch.Delivery.{new}
use squelch.Downstream.{
  Attempt, CallEvent, Pusher, max_retries, second, push_with_retry, succeeded, gave_up,
}
use squelch.Downstream.Retries.{total, all_failed, push_bounded, push_settles}
use squelch.Downstream.Calls.{Step, comes, turn, run, accepted, granted, pushed_in_order}

abbrev refused : Attempt
refused = record { status = 503; millis = 9; err = some "busy"; random = 7; cancelled = false }

abbrev answered : Attempt
answered = record { status = 200; millis = 5; err = none; random = 0; cancelled = false }

abbrev third_time : ℕ → Attempt
third_time zero = refused
third_time (suc zero) = refused
third_time (suc (suc i)) = answered

third_time_goes : (i : ℕ) → (third_time i).cancelled ≡ false
third_time_goes zero = refl
third_time_goes (suc zero) = refl
third_time_goes (suc (suc i)) = refl

push_bounded_example :
    ((push_with_retry third_time).attempts ≤ max_retries)
    × ((push_with_retry third_time).attempts ≡ suc (length (push_with_retry third_time).waits))
    × (2 * total (push_with_retry third_time).waits ≤ 45 * second)
push_bounded_example = push_bounded third_time

push_settles_example :
    ((at : ℕ) × (at < max_retries)
      × (all_failed at 0 third_time ≡ true)
      × ((third_time at).err ≡ none)
      × ((push_with_retry third_time).attempts ≡ suc at)
      × ((push_with_retry third_time).recorded ≡ some (succeeded (third_time at))))
    ⊎ ((text : String) × (all_failed max_retries 0 third_time ≡ true)
        × ((third_time 4).err ≡ some text)
        × ((push_with_retry third_time).attempts ≡ max_retries)
        × ((push_with_retry third_time).recorded ≡ some (gave_up (third_time 4) text)))
push_settles_example = push_settles third_time third_time_goes

abbrev fire_call : CallEvent
fire_call = record { call_id = pos 1; system = pos 1; talkgroup = pos 5 }

abbrev other_call : CallEvent
other_call = record { call_id = pos 2; system = pos 2; talkgroup = pos 5 }

abbrev remote : Pusher
remote = record {
  id = pos 3;
  grants = some (record { id = pos 1; talkgroups = [] } ∷ []);
  ch = [];
  deliveries = new true;
}

abbrev morning : List Step
morning = comes other_call ∷ comes fire_call ∷ turn third_time 100 ∷ turn third_time 200 ∷ []

pushed_in_order_example :
    (run morning (remote, [])).1
      ++ granted (run morning (remote, [])).0.grants (run morning (remote, [])).0.ch
    ≡ granted remote.grants (accepted morning (remote, []))
pushed_in_order_example = pushed_in_order morning remote refl
