-- ===== src/Connections.antt =====
-- backend/internal/connections/registry.go: the admin's view of every live connection. A nil
-- registry does nothing and is not modelled. What a method tells the outside (the observer, the
-- debounced callback, the close functions) is part of its result; a close function is known by the
-- connection's id. Instants are nanoseconds since Go's zero time, so that a zero time is 0.
pub mod Runs
pub mod History
pub mod Closing
use squelch.Prelude.{
  ℕ, Bool, true, false, not, ◌&&◌, ◌||◌, List, [], ◌∷◌, map, Option, none, some, String, ltb, ◌==◌,
  nat_comparable, text_comparable, if◌then◌else◌, length,
}
use squelch.Prelude.Int.{ℤ}
use squelch.Prelude.Dict.{Dict, lookup, insert, delete}
use squelch.Prelude.Sort.{sort_by}
use squelch.Prelude.Text.{text_less}

pub data Kind : Type 0 where
  listener admin stream : Kind

abbrev pub reason_client : String
reason_client = "client"

-- Of the embedded Client only the IP is read: `address`, if it is valid.
pub record Conn : Type 0 where
  pub id : String
  pub kind : Kind
  pub user_id : ℤ
  pub username : String
  pub role : String
  pub jti : String
  pub family_id : String
  pub native : Bool
  pub protocol : String
  pub address : Option String
  pub country : String
  pub connected_at : ℕ

-- `closes` says whether the transport gave a close function.
pub record Entry : Type 0 where
  pub conn : Conn
  pub closes : Bool
  pub reason : String

-- `timer` says whether a change callback is scheduled.
pub record Registry : Type 0 where
  pub conns : Dict String Entry
  pub on_change : Bool
  pub observer : Bool
  pub country : Option (String → String)
  pub timer : Bool

-- What the observer is told.
pub data Notice : Type 0 where
  opened : Conn → Notice
  closed : Conn → String → ℕ → Notice

unfoldable pub new : Registry
new = record { conns = []; on_change = false; observer = false; country = none; timer = false }

unfoldable pub set_on_change : Registry → Registry
set_on_change r = record r { on_change = true }

unfoldable pub set_observer : Registry → Registry
set_observer r = record r { observer = true }

unfoldable pub set_country_lookup : (String → String) → Registry → Registry
set_country_lookup f r = record r { country = some f }

-- Whether the callback is scheduled after a change.
abbrev pub changed : Registry → Bool
changed r = r.timer || r.on_change

-- The conn that `Add` stores, with the id that would be minted and the clock's reading.
abbrev with_country : Option (String → String) → Conn → Conn
with_country none c = c
with_country (some f) c =
    if c.country == ""
    then elim c.address [ none ↦ c | some ip ↦ record c { country = f ip } ]
    else c

abbrev with_identity : String → ℕ → Conn → Conn
with_identity fresh now c = record c {
  id = if c.id == "" then fresh else c.id;
  connected_at = if c.connected_at == 0 then now else c.connected_at;
}

unfoldable pub completed : String → ℕ → Registry → Conn → Conn
completed fresh now r c = with_country r.country (with_identity fresh now c)

-- What `Add` does under the lock; the notices are for the observer once it is released.
unfoldable pub add : String → ℕ → Conn → Bool → Registry → Registry × String × List Notice
unfolding completed
add fresh now conn closes r =
    let c = completed fresh now r conn in
    (
      record r {
        conns = insert c.id (record { conn = c; closes = closes; reason = "" }) r.conns;
        timer = changed r;
      },
      c.id,
      if r.observer then opened c ∷ [] else [],
    )

unfoldable pub set_close_reason : String → String → Registry → Registry
set_close_reason id reason r = if id == "" then r else elim (lookup id r.conns) [
  | none ↦ r
  | some e ↦ record r { conns = insert id (record e { reason = reason }) r.conns }
]

-- The reason that the history gets.
abbrev pub reason_or_client : String → String
reason_or_client reason = if reason == "" then reason_client else reason

-- What `Remove` does under the lock; the notices are for the observer once it is released.
unfoldable pub remove : String → ℕ → Registry → Registry × List Notice
remove id now r = if id == "" then (r, []) else elim (lookup id r.conns) [
  | none ↦ (r, [])
  | some e ↦ (
    record r { conns = delete id r.conns; timer = changed r },
    if r.observer then closed e.conn (reason_or_client e.reason) now ∷ [] else [],
  )
]

unfoldable pub len : Registry → ℕ
len r = length r.conns

abbrev pub conn_of : String × Entry → Conn
conn_of (id, e) = e.conn

-- Oldest first, by id among those of one instant.
unfoldable pub lists_before : Conn → Conn → Bool
lists_before a b =
    if not (a.connected_at == b.connected_at)
    then ltb a.connected_at b.connected_at
    else text_less a.id b.id

unfoldable pub list : Registry → List Conn
unfolding lists_before
list r = sort_by lists_before (map conn_of r.conns)

unfoldable pub get : String → Registry → Option Conn
get id r = elim (lookup id r.conns) [ none ↦ none | some e ↦ some e.conn ]

-- One round of the loop of `closeWhere`: the entry afterwards, and whether it is asked to close.
unfoldable pub selects : (Conn → Bool) → Entry → Bool
selects pred e = pred e.conn && e.closes

pub marked : String → (Conn → Bool) → Entry → Entry
unfolding selects
marked reason pred e =
    if selects pred e && not (reason == "") then record e { reason = reason } else e

unfoldable pub mark_all : String → (Conn → Bool) → Dict String Entry → Dict String Entry
unfolding marked
mark_all reason pred [] = []
mark_all reason pred ((id, e) ∷ rest) = (id, marked reason pred e) ∷ mark_all reason pred rest

unfoldable pub closers : (Conn → Bool) → Dict String Entry → List String
unfolding selects
closers pred [] = []
closers pred ((id, e) ∷ rest) = if selects pred e then id ∷ closers pred rest else closers pred rest

-- The close functions to call once the lock is released, and the answer.
unfoldable pub close_where : String → (Conn → Bool) → Registry → Registry × List String × ℕ
unfolding mark_all closers
close_where reason pred r =
    let ids = closers pred r.conns in
    (record r { conns = mark_all reason pred r.conns }, ids, length ids)

-- `Close`, `CloseFor`, `CloseWhere`
unfoldable pub close : String → Registry → Registry × List String × Bool
unfolding close_where
close id r = let (r', ids, n) = close_where "" (λ c. c.id == id) r in (r', ids, ltb 0 n)

-- The scheduled callback: the answer says whether it is called.
unfoldable pub fire : Registry → Registry × Bool
fire r = (record r { timer = false }, r.on_change)
