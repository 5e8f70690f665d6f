-- ===== src/Examples/Monitors.antt =====
-- A monitor that runs, and reads a file that is a call and one that is not.
use squelch.Prelude.{◌-◌, ◌≡◌, List, [], ◌∷◌, length, arith, int_beq}
use squelch.Prelude.Int.{pos}
use squelch.Prelude.Window.{since, Ascending}
use squelch.MonitorStatus.{new, get, watching, day, itself}
use squelch.MonitorStatus.Ingested.{
  Report, runs, sees, apply_all, ingested_at, count_of, ingested_of_history,
}

abbrev reports : List Report
reports =
    runs (pos 1) watching 100_000
    ∷ sees (pos 1) "a.wav" "call" (pos 41) 100_010
    ∷ sees (pos 2) "b.wav" "call" (pos 42) 100_005
    ∷ sees (pos 1) "notes.txt" "ignored" (pos 0) 100_020
    ∷ sees (pos 1) "c.wav" "call" (pos 43) 100_030
    ∷ []

in_order : Ascending itself (ingested_at (pos 1) reports)
unfolding int_beq
in_order = ((ground arith, tt), (tt, tt))

ingested_of_history_example :
    count_of (get (pos 1) 186_420 (apply_all reports new)).1
    ≡ length (since itself (186_420 - day) (ingested_at (pos 1) reports))
ingested_of_history_example = ingested_of_history (pos 1) 186_420 reports in_order
