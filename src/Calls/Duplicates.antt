-- ===== src/Calls/Duplicates.antt =====
-- backend/internal/audio/duplicate.go, with the two statements of
-- backend/internal/db/calls.sql.go that it asks. Whether a statement fails is an argument.
use squelch.Prelude.{
  ℕ, Bool, true, false, not, ◌&&◌, ◌||◌, List, [], ◌∷◌, Option, none, some, ◌==◌, int_comparable,
  nat_comparable, ◌/◌, if◌then◌else◌,
}
use squelch.Prelude.Int.{ℤ, pos, negsuc, ltb_ℤ, ◌+ℤ◌, ◌-ℤ◌}
use squelch.Calls.{Call}
use squelch.Calls.Fields.{wrap_int64}

-- `c.system_id = ? AND c.talkgroup_id = ?`; NULL is equal to nothing.
unfoldable pub is_of : ℤ → ℤ → Call → Bool
is_of system talkgroup c = elim (c.talkgroup_id) [
  | none ↦ false
  | some t ↦ c.system_id == system && t == talkgroup
]

unfoldable pub has_call_at_timestamp : ℤ → ℤ → ℤ → List Call → Bool
unfolding is_of
has_call_at_timestamp system talkgroup at [] = false
has_call_at_timestamp system talkgroup at (c ∷ cs) =
    is_of system talkgroup c && c.date_time == at || has_call_at_timestamp system talkgroup at cs

unfoldable pub has_call_in_time_range : ℤ → ℤ → ℤ → ℤ → List Call → Bool
unfolding is_of
has_call_in_time_range system talkgroup from to [] = false
has_call_in_time_range system talkgroup from to (c ∷ cs) =
    is_of system talkgroup c && not (ltb_ℤ c.date_time from) && not (ltb_ℤ to c.date_time)
    || has_call_in_time_range system talkgroup from to cs

-- Go's division of a positive number by 1000, at least 1.
unfoldable pub window_sec : ℕ → ℤ
window_sec ms = if ms / 1000 == 0 then pos 1 else pos (ms / 1000)

-- Whether each statement works.
pub record Working : Type 0 where
  pub at_timestamp : Bool
  pub in_time_range : Bool

-- `none` is an error.
unfoldable pub is_duplicate : Working → List Call → ℤ → ℤ → ℤ → ℤ → Option Bool
unfolding has_call_at_timestamp has_call_in_time_range window_sec
is_duplicate working calls system talkgroup at (negsuc n) = some false
is_duplicate working calls system talkgroup at (pos ms) =
    if ms == 0
    then some false
    else if not working.at_timestamp
    then none
    else if has_call_at_timestamp system talkgroup at calls
    then some true
    else if not working.in_time_range
    then none
    else some (
        has_call_in_time_range system talkgroup (wrap_int64 (at -ℤ window_sec ms))
          (wrap_int64 (at +ℤ window_sec ms)) calls)
