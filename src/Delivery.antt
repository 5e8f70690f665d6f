-- ===== src/Delivery.antt =====
-- backend/internal/delivery/tracker.go: how deliveries to each remote target have been going.
-- Times are seconds since 1970 and not negative, so that `now - window` cut off at 0 gives the same
-- tests as in Go. `t.mu` makes each method one step; the call of the persister is its result.
pub mod History
pub mod Durable
use squelch.Prelude.{
  ℕ, suc, ◌+◌, ◌-◌, ◌*◌, Bool, true, false, not, ◌||◌, ◌&&◌, List, [], ◌∷◌, ◌++◌, Option, none,
  some, String, leb, ◌==◌, nat_comparable, int_comparable, if◌then◌else◌, bool_eq,
}
use squelch.Prelude.Int.{ℤ}
use squelch.Prelude.Dict.{Dict, lookup, insert, delete}
use squelch.Prelude.Window.{drop_before}

pub record Result : Type 0 where
  pub at : ℕ
  pub ok : Bool
  pub status : ℕ
  pub error : String
  pub millis : ℕ

abbrev pub zero_result : Result
zero_result = record { at = 0; ok = false; status = 0; error = ""; millis = 0 }

pub record Stats : Type 0 where
  pub last : Result
  pub last_ok_at : ℕ
  pub sent24h : ℕ
  pub failed24h : ℕ

abbrev pub window : ℕ
window = 24 * 60 * 60

abbrev pub persist_every : ℕ
persist_every = 60

pub record RecentResult : Type 0 where
  pub at : ℕ
  pub ok : Bool

pub record Entry : Type 0 where
  pub last : Result
  pub last_ok_at : ℕ
  pub recent : List RecentResult
  pub last_persist : ℕ

abbrev pub zero_entry : Entry
zero_entry = record { last = zero_result; last_ok_at = 0; recent = []; last_persist = 0 }

-- `persister` says whether a persister was given.
pub record Tracker : Type 0 where
  pub entries : Dict ℤ Entry
  pub persister : Bool

unfoldable pub new : Bool → Tracker
new persister = record { entries = []; persister = persister }

abbrev pub or_zero : Option Entry → Entry
or_zero none = zero_entry
or_zero (some e) = e

-- `t.entry(id)`
unfoldable pub entry : ℤ → Tracker → Entry
entry id t = or_zero (lookup id t.entries)

unfoldable pub trim : ℕ → Entry → Entry
trim now e = record e { recent = drop_before (λ r. r.at) (now - window) e.recent }

seed_entry : Result → ℕ → Entry → Entry
seed_entry last last_ok_at e =
    if e.last.at == 0 then record e { last = last; last_ok_at = last_ok_at } else e

unfoldable pub seed : ℤ → Result → ℕ → Tracker → Tracker
unfolding seed_entry entry
seed id last last_ok_at t = record t {
  entries = insert id (seed_entry last last_ok_at (entry id t)) t.entries;
}

-- `if r.At == 0 { r.At = t.now().Unix() }`
abbrev pub stamped : ℕ → Result → Result
stamped now r = if r.at == 0 then record r { at = now } else r

abbrev pub outcome : Result → RecentResult
outcome r = record { at = r.at; ok = r.ok }

noted : Result → Entry → Entry
noted r e = record e {
  last = r;
  last_ok_at = if r.ok then r.at else e.last_ok_at;
  recent = e.recent ++ outcome r ∷ [];
}

-- `r.At - e.lastPersist >= persistEvery` is false where lastPersist is later, also when cut off.
persists : Bool → Result → Entry → Bool
persists persister r e =
    persister
    && (not r.ok
        || (not (bool_eq e.last.ok r.ok) || not (e.last.status == r.status))
        || leb persist_every (r.at - e.last_persist))

pub record_entry : Bool → Result → Entry → Entry × Bool
unfolding noted trim persists
record_entry persister r e =
    let e' = trim r.at (noted r e) in
    if persists persister r e then (record e' { last_persist = r.at }, true) else (e', false)

-- `Record` under the lock: the result to hand to the persister, if any. The persister is called
-- once the lock is released, and an error of its statement is only logged.
unfoldable pub record_result : ℤ → ℕ → Result → Tracker → Tracker × Option Result
unfolding record_entry entry
record_result id now r t =
    let r' = stamped now r in
    let (e, persist) = record_entry t.persister r' (entry id t) in
    (record t { entries = insert id e t.entries }, if persist then some r' else none)

-- The loop that counts what is left in the window.
unfoldable pub count_recent : List RecentResult → Stats → Stats
count_recent [] s = s
count_recent (r ∷ rs) s = count_recent rs (record s {
  sent24h = suc s.sent24h;
  failed24h = if r.ok then s.failed24h else suc s.failed24h;
})

-- `Stats` trims the entry that it reads.
unfoldable pub stats : ℤ → ℕ → Tracker → Tracker × Stats
unfolding trim count_recent
stats id now t = elim (lookup id t.entries) [
  | none ↦ (t, record { last = zero_result; last_ok_at = 0; sent24h = 0; failed24h = 0 })
  | some e ↦
      let e' = trim now e in
      (
        record t { entries = insert id e' t.entries },
        count_recent e'.recent
            (record { last = e.last; last_ok_at = e.last_ok_at; sent24h = 0; failed24h = 0 }),
      )
]

unfoldable pub forget : ℤ → Tracker → Tracker
forget id t = record t { entries = delete id t.entries }
