-- ===== src/Connections/History.antt =====
-- What the observer is told over a run, against the connections that are live.
use squelch.Prelude.{
  ℕ, ◌+◌, ◌≤◌, ◌≡◌, refl, ◌≢◌, true, not, ◌&&◌, List, [], ◌∷◌, ◌++◌, Option, none, some, String,
  ◌==◌, text_comparable, if◌then◌else◌, arith, ==_iff, ◌∙◌, Option-cases, inl, inr,
}
use squelch.Prelude.Dict.{lookup, lookup-insert, lookup-delete}
use squelch.Connections.{
  Conn, Entry, Registry, Notice, opened, closed, new, completed, add, remove, set_close_reason,
  close_where, marked, fire, set_observer, get, reason_or_client,
}
use squelch.Connections.Runs.{
  openings, endings, openings-append, endings-append, World, Step, adds, removes, reasons, closings,
  tells, fires, Reach, here, next, live,
}
use squelch.Connections.Closing.{lookup-mark_all, map_entry}

-- Each entry stands under its connection's id, which is not empty.
abbrev Filed : String → Option Entry → Type 0
Filed id none = Unit
Filed id (some e) = (e.conn.id ≡ id) × (id ≢ "")

-- The notices handed over and owed agree with the registry, and an opening is owed only for a
-- connection that is still there.
abbrev Balanced : String → World → Type 0
Balanced id w =
    (openings id w.told + openings id w.owed
      ≡ endings id w.told + endings id w.owed + live (get id w.registry))
    × (openings id w.owed ≤ live (get id w.registry))

record Inv (w : World) : Type 0 where
  watched : w.registry.observer ≡ true
  filed : (id : String) → Filed id (lookup id w.registry.conns)
  balanced : (id : String) → Balanced id w

completed-id_ne :
    (fresh : String) (now : ℕ) (r : Registry) (c : Conn)
    → fresh ≢ ""
    → (completed fresh now r c).id ≢ ""
unfolding completed
completed-id_ne fresh now r c ne h = ground (arith, ==_iff c.id "", ==_iff c.country "")

lookup-set_close_reason :
    (i id reason : String) (r : Registry)
    → lookup id (set_close_reason i reason r).conns ≡ (
        if i == id && not (i == "")
        then map_entry (λ e. record e { reason = reason }) (lookup id r.conns)
        else lookup id r.conns)
unfolding set_close_reason
lookup-set_close_reason i id reason r = elim (Option-cases (lookup i r.conns)) [
  | inl missing ↦ ground (arith, ==_iff i id)
  | inr (e, found) ↦
      ground (arith, ==_iff i id, lookup-insert i id (record e { reason = reason }) r.conns)
]

Filed-set_close_reason :
    (i id reason : String) (r : Registry)
    → Filed id (lookup id r.conns)
    → Filed id (lookup id (set_close_reason i reason r).conns)
Filed-set_close_reason i id reason r f = ground (arith, lookup-set_close_reason i id reason r)

Filed-Step :
    {w v : World}
    → Step w v
    → (id : String) → Filed id (lookup id w.registry.conns)
    → Filed id (lookup id v.registry.conns)
unfolding add remove set_close_reason close_where fire marked
Filed-Step {w} (adds fresh now c closes minted free) id f =
    let c' = completed fresh now w.registry c in
    ground (
      arith,
      completed-id_ne fresh now w.registry c minted,
      ==_iff c'.id id,
      lookup-insert c'.id id (record { conn = c'; closes = closes; reason = "" }) w.registry.conns,
    )
Filed-Step {w} (removes i now added) id f = ground (arith, lookup-delete i id w.registry.conns)
Filed-Step {w} (reasons i reason) id f = Filed-set_close_reason i id reason w.registry f
Filed-Step {w} (closings reason pred) id f =
    ground (arith, lookup-mark_all reason pred id w.registry.conns)
Filed-Step {w} (tells before n after due) id f = f
Filed-Step {w} fires id f = f

-- The end of the connection that stands under the id.
Balanced-remove :
    (i id : String) (now : ℕ) (w : World)
    → Inv w
    → openings i w.owed ≡ 0
    → let (r', ns) = remove i now w.registry in
      Balanced id (record w { registry = r'; owed = w.owed ++ ns })
unfolding remove get
Balanced-remove i id now w h added = elim (Option-cases (lookup i w.registry.conns)) [
  | inl missing ↦
      ground (arith, h.balanced id, openings-append id w.owed [], endings-append id w.owed [])
  | inr (e, found) ↦
      let reason = reason_or_client e.reason in
      ground (
        arith,
        found,
        h.watched,
        h.balanced id,
        h.filed i,
        ==_iff i id,
        ==_iff i "",
        ==_iff e.conn.id id,
        openings-append id w.owed (closed e.conn reason now ∷ []),
        endings-append id w.owed (closed e.conn reason now ∷ []),
        lookup-delete i id w.registry.conns,
      )
]

Balanced-tells :
    (id : String) (before : List Notice) (n : Notice) (after : List Notice) (w : World)
    → w.owed ≡ before ++ n ∷ after
    → Balanced id w
    → Balanced id (record w { owed = before ++ after; told = w.told ++ n ∷ [] })
Balanced-tells id before n after w due b = ground (
  arith,
  due,
  b,
  openings-append id before (n ∷ after),
  openings-append id (n ∷ []) after,
  openings-append id before after,
  openings-append id w.told (n ∷ []),
  endings-append id before (n ∷ after),
  endings-append id (n ∷ []) after,
  endings-append id before after,
  endings-append id w.told (n ∷ []),
)

Balanced-Step : {w v : World} → Step w v → Inv w → (id : String) → Balanced id v
unfolding add remove set_close_reason close_where fire marked get
Balanced-Step {w} (adds fresh now c closes minted free) h id =
    let c' = completed fresh now w.registry c in
    ground (
      arith,
      h.watched,
      h.balanced id,
      ==_iff c'.id id,
      openings-append id w.owed (opened c' ∷ []),
      endings-append id w.owed (opened c' ∷ []),
      lookup-insert c'.id id (record { conn = c'; closes = closes; reason = "" }) w.registry.conns,
    )
Balanced-Step {w} (removes i now added) h id = Balanced-remove i id now w h added
Balanced-Step {w} (reasons i reason) h id =
    ground (arith, h.balanced id, lookup-set_close_reason i id reason w.registry)
Balanced-Step {w} (closings reason pred) h id =
    ground (arith, h.balanced id, lookup-mark_all reason pred id w.registry.conns)
Balanced-Step {w} (tells before n after due) h id =
    Balanced-tells id before n after w due (h.balanced id)
Balanced-Step {w} fires h id = h.balanced id

watched-Step : {w v : World} → Step w v → v.registry.observer ≡ w.registry.observer
unfolding add remove set_close_reason close_where fire
watched-Step (adds fresh now c closes minted free) = refl
watched-Step (removes i now added) = ground arith
watched-Step (reasons i reason) = ground arith
watched-Step (closings reason pred) = refl
watched-Step (tells before n after due) = refl
watched-Step fires = refl

Step-Inv : {w v : World} → Step w v → Inv w → Inv v
Step-Inv {w} s h = record {
  watched = watched-Step s ∙ h.watched;
  filed = λ id. Filed-Step s id (h.filed id);
  balanced = Balanced-Step s h;
}

Reach-Inv : {w v : World} → Inv w → Reach w v → Inv v
Reach-Inv h here = h
Reach-Inv h (next r s) = Step-Inv s (Reach-Inv h r)

-- A new registry whose observer was set before any connection was added.
abbrev pub start : World
start = record { registry = set_observer new; owed = []; told = [] }

start-Inv : Inv start
unfolding new set_observer lookup get
start-Inv = record { watched = refl; filed = λ id. tt; balanced = λ id. (refl, omega arith) }

-- From a new registry with its observer set, through any calls with fresh ids, whose notices are
-- handed to the observer at any time after the lock is released, the observer has at no moment been
-- told of more ends than openings of an id, and the openings told and still owed of it are as many
-- as the ends told and still owed, and one more while the connection is live. No id is added while
-- it is live, and a connection is removed only once its `Add` has returned.
pub history_balanced :
    {w : World} (id : String)
    → Reach start w
    → (endings id w.told ≤ openings id w.told)
      × (openings id w.told + openings id w.owed
          ≡ endings id w.told + endings id w.owed + live (get id w.registry))
history_balanced id r =
    let (balance, owed) = (Reach-Inv start-Inv r).balanced id in
    (omega (arith, balance, owed), balance)
