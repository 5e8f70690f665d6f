-- ===== src/Calls/Resolve/Rows.antt =====
-- What looking for the system and the talkgroup does to the rows.
use squelch.Prelude.{◌≡◌, true, List, some, inl, inr, Option-cases, arith, int_comparable}
use squelch.Prelude.Int.{ℤ}
use squelch.Auth.Grants.{Grants, SystemGrant, grants_include_system}
use squelch.Calls.{System, Talkgroup, Store, find_talkgroup_row}
use squelch.Calls.Fields.{Library, Form, go}
use squelch.Calls.Resolve.{
  Database, api_key_may_upload, resolve_system, resolve_talkgroup, create_talkgroup, backfill,
}

pub resolve_system-calls :
    (lib : Library) (db : Database) (form : Form) (grants : Grants) (id : ℤ) (s : Store)
    → (resolve_system lib db form grants id s).store.calls ≡ s.calls
unfolding resolve_system
resolve_system-calls lib db form grants id s = ground arith

create_talkgroup-calls :
    (db : Database) (form : Form) (system : System) (id : ℤ) (s : Store)
    → (create_talkgroup db form system id s).store.calls ≡ s.calls
unfolding create_talkgroup
create_talkgroup-calls db form system id s = ground arith

backfill-calls :
    (db : Database) (form : Form) (t : Talkgroup) (s : Store)
    → (backfill db form t s).store.calls ≡ s.calls
unfolding backfill
backfill-calls db form t s = ground arith

pub resolve_talkgroup-calls :
    (db : Database) (form : Form) (system : System) (id : ℤ) (s : Store)
    → (resolve_talkgroup db form system id s).store.calls ≡ s.calls
unfolding resolve_talkgroup
resolve_talkgroup-calls db form system id s =
    elim (Option-cases (find_talkgroup_row system.id id s.talkgroups)) [
      | inl missing ↦ ground (arith, missing, create_talkgroup-calls db form system id s)
      | inr (t, present) ↦ ground (arith, present, backfill-calls db form t s)
    ]

-- The systems change in no step after the first.
create_talkgroup-systems :
    (db : Database) (form : Form) (system : System) (id : ℤ) (s : Store)
    → (create_talkgroup db form system id s).store.systems ≡ s.systems
unfolding create_talkgroup
create_talkgroup-systems db form system id s = ground arith

backfill-systems :
    (db : Database) (form : Form) (t : Talkgroup) (s : Store)
    → (backfill db form t s).store.systems ≡ s.systems
unfolding backfill
backfill-systems db form t s = ground arith

pub resolve_talkgroup-systems :
    (db : Database) (form : Form) (system : System) (id : ℤ) (s : Store)
    → (resolve_talkgroup db form system id s).store.systems ≡ s.systems
unfolding resolve_talkgroup
resolve_talkgroup-systems db form system id s =
    elim (Option-cases (find_talkgroup_row system.id id s.talkgroups)) [
      | inl missing ↦ ground (arith, missing, create_talkgroup-systems db form system id s)
      | inr (t, present) ↦ ground (arith, present, backfill-systems db form t s)
    ]

-- With grants no system is made, and the one that is found is among them.
pub resolve_system-scoped :
    (lib : Library) (db : Database) (form : Form) (gs : List SystemGrant) (id : ℤ) (s : Store)
    → (resolve_system lib db form (some gs) id s).store ≡ s
unfolding resolve_system api_key_may_upload
resolve_system-scoped lib db form gs id s = ground arith

pub resolve_system-granted :
    (lib : Library) (db : Database) (form : Form) (gs : List SystemGrant) (id : ℤ) (s : Store)
    (system : System)
    → (resolve_system lib db form (some gs) id s).answer ≡ go system
    → grants_include_system (some gs) system.id ≡ true
unfolding resolve_system api_key_may_upload
resolve_system-granted lib db form gs id s system found = ground (arith, found)
