-- ===== src/MonitorStatus.antt =====
-- backend/internal/dirmonitor/status/status.go: what each folder monitor is doing. Times are seconds
-- since 1970 and not negative, so that a cutoff at 0 gives the same tests as in Go. A nil tracker
-- records nothing and is not modelled. The mutex makes each method one step.
pub mod Ingested
use squelch.Prelude.{
  ℕ, ◌-◌, ◌*◌, Bool, List, [], ◌∷◌, ◌++◌, Option, none, some, String, ◌==◌, int_comparable,
  if◌then◌else◌, length,
}
use squelch.Prelude.Int.{ℤ, pos}
use squelch.Prelude.Dict.{Dict, lookup, insert, delete}
use squelch.Prelude.Window.{drop_before}

abbrev pub watching : String
watching = "watching"

abbrev pub polling : String
polling = "polling"

abbrev pub is_stopped : String
is_stopped = "stopped"

-- `Ingested24h` is set only in what `Get` gives.
pub record Snapshot : Type 0 where
  pub state : String
  pub error : String
  pub since : ℕ
  pub last_file : String
  pub last_file_at : ℕ
  pub last_result : String
  pub last_call_id : ℤ
  pub ingested24h : ℕ

pub record Entry : Type 0 where
  pub snapshot : Snapshot
  pub ingested : List ℕ

abbrev pub zero_entry : Entry
zero_entry = record {
  snapshot = record {
    state = "";
    error = "";
    since = 0;
    last_file = "";
    last_file_at = 0;
    last_result = "";
    last_call_id = pos 0;
    ingested24h = 0;
  };
  ingested = [];
}

abbrev pub Tracker : Type 0
Tracker = Dict ℤ Entry

unfoldable pub new : Tracker
new = []

abbrev pub entry_or_zero : Option Entry → Entry
entry_or_zero none = zero_entry
entry_or_zero (some e) = e

-- `t.get(id)`
unfoldable pub entry_of : ℤ → Tracker → Entry
entry_of id t = entry_or_zero (lookup id t)

unfoldable pub running : ℤ → String → ℕ → Tracker → Tracker
unfolding entry_of
running id state now t =
    let e = entry_of id t in
    insert id
      (record e { snapshot = record (e.snapshot) { state = state; error = ""; since = now } }) t

unfoldable pub stopped : ℤ → String → ℕ → Tracker → Tracker
unfolding entry_of
stopped id err_text now t =
    let e = entry_of id t in
    insert id
      (record e {
        snapshot = record (e.snapshot) { state = is_stopped; error = err_text; since = now };
      })
      t

unfoldable pub trouble : ℤ → String → Tracker → Tracker
unfolding entry_of
trouble id err_text t =
    let e = entry_of id t in
    insert id (record e { snapshot = record (e.snapshot) { error = err_text } }) t

abbrev pub seen_entry : String → String → ℤ → ℕ → Entry → Entry
seen_entry file result call_id now e = record {
  snapshot = record (e.snapshot) {
    last_file = file;
    last_file_at = now;
    last_result = result;
    last_call_id = call_id;
  };
  ingested = if call_id == pos 0 then e.ingested else e.ingested ++ now ∷ [];
}

unfoldable pub seen : ℤ → String → String → ℤ → ℕ → Tracker → Tracker
unfolding entry_of
seen id file result call_id now t = insert id (seen_entry file result call_id now (entry_of id t)) t

unfoldable pub forget : ℤ → Tracker → Tracker
forget id t = delete id t

abbrev pub day : ℕ
day = 24 * 60 * 60

abbrev pub itself : ℕ → ℕ
itself at = at

-- The calls older than a day are dropped from the entry that is read.
unfoldable pub get : ℤ → ℕ → Tracker → Tracker × Option Snapshot
get id now t = elim (lookup id t) [
  | none ↦ (t, none)
  | some e ↦
      let recent = drop_before itself (now - day) e.ingested in
      (
        insert id (record e { ingested = recent }) t,
        some (record (e.snapshot) { ingested24h = length recent }),
      )
]
