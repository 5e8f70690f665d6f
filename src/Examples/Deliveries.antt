-- ===== src/Examples/Deliveries.antt =====
-- Deliveries to two targets, one of which fails once.
use squelch.Prelude.{
  ℕ, ◌-◌, ◌≡◌, refl, Bool, true, false, List, [], ◌∷◌, none, arith, length, int_beq,
}
use squelch.Prelude.Int.{pos}
use squelch.Prelude.Window.{since}
use squelch.Delivery.{Result, new, stats, window, zero_result, entry}
use squelch.Delivery.History.{
  Call, run, results_of, latest, latest_ok, outcomes, failures, at_of, stats_of_history,
}
use squelch.Delivery.Durable.{Mirrors, AllWork, calls_of, written, row_keeps_up}

abbrev attempt : ℕ → Bool → ℕ → Result
attempt at ok status = record { at = at; ok = ok; status = status; error = ""; millis = 3 }

abbrev calls : List Call
calls =
    record { id = pos 1; now = 0; result = attempt 100_000 true 200 }
    ∷ record { id = pos 2; now = 0; result = attempt 100_001 true 200 }
    ∷ record { id = pos 1; now = 100_010; result = attempt 0 false 502 }
    ∷ []

abbrev first_target : List Result
first_target = results_of (pos 1) calls

stats_of_history_example : (stats (pos 1) 186_405 (run calls (new true))).1 ≡ record {
  last = latest zero_result first_target;
  last_ok_at = latest_ok 0 first_target;
  sent24h = length (since at_of (186_405 - window) (outcomes first_target));
  failed24h = failures (since at_of (186_405 - window) (outcomes first_target));
}
unfolding results_of int_beq
stats_of_history_example = stats_of_history true calls (pos 1) 186_405 (omega arith) (omega arith)

only_the_failure : failures (since at_of (186_405 - window) (outcomes first_target)) ≡ 1
unfolding results_of int_beq since
only_the_failure = refl

-- The statement for the other target fails.
abbrev persisted : List (Call × Bool)
persisted =
    (record { id = pos 1; now = 0; result = attempt 100_000 true 200 }, true)
    ∷ (record { id = pos 2; now = 0; result = attempt 100_001 true 200 }, false)
    ∷ (record { id = pos 1; now = 0; result = attempt 100_002 false 500 }, true)
    ∷ []

persisted-AllWork : AllWork (pos 1) persisted
persisted-AllWork = (λ e. refl, (λ e. absurd (ground (arith, e)), (λ e. refl, tt)))

row_keeps_up_example :
    Mirrors
      (entry (pos 1) (run (calls_of persisted) (new true)))
      (written (pos 1) none persisted (new true))
row_keeps_up_example = row_keeps_up persisted (pos 1) persisted-AllWork
