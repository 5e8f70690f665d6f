-- ===== src/Connections/Runs.antt =====
-- Runs of the registry: what its methods do under the lock, and what they tell the observer after.
use squelch.Prelude.{
  ℕ, ◌+◌, ◌≡◌, ◌≢◌, Bool, List, [], ◌∷◌, ◌++◌, Option, none, some, String, ◌==◌, text_comparable,
  if◌then◌else◌, arith,
}
use squelch.Connections.{
  Conn, Registry, Notice, opened, closed, completed, add, remove, set_close_reason, close_where,
  fire, get,
}

-- How many notices are of a connection's opening, and of its end.
abbrev pub openings : String → List Notice → ℕ
openings id [] = 0
openings id (opened c ∷ ns) = (if c.id == id then 1 else 0) + openings id ns
openings id (closed c reason now ∷ ns) = openings id ns

abbrev pub endings : String → List Notice → ℕ
endings id [] = 0
endings id (opened c ∷ ns) = endings id ns
endings id (closed c reason now ∷ ns) = (if c.id == id then 1 else 0) + endings id ns

pub openings-append :
    (id : String) (a b : List Notice) → openings id (a ++ b) ≡ openings id a + openings id b
openings-append id [] b = omega arith
openings-append id (opened c ∷ a) b = omega (arith, openings-append id a b)
openings-append id (closed c reason now ∷ a) b = omega (arith, openings-append id a b)

pub endings-append :
    (id : String) (a b : List Notice) → endings id (a ++ b) ≡ endings id a + endings id b
endings-append id [] b = omega arith
endings-append id (opened c ∷ a) b = omega (arith, endings-append id a b)
endings-append id (closed c reason now ∷ a) b = omega (arith, endings-append id a b)

-- The registry, the notices that calls which have released the lock are still to hand to the
-- observer, and all that the observer has been told.
pub record World : Type 0 where
  pub registry : Registry
  pub owed : List Notice
  pub told : List Notice

-- What one call of a transport, of the admin, or of the debounce timer does under the lock, or the
-- notice that `Add` or `Remove` hands over after it, in any order among all calls. A minted id is
-- not empty, no id is used that is live, and a transport removes a connection only once its `Add`
-- has returned.
pub data Step (w : World) : World → Type 0 where
  adds :
      (fresh : String) (now : ℕ) (c : Conn) (closes : Bool)
      → fresh ≢ ""
      → get (completed fresh now w.registry c).id w.registry ≡ none
      → Step w (record w {
        registry = (add fresh now c closes w.registry).0;
        owed = w.owed ++ (add fresh now c closes w.registry).2;
      })
  removes :
      (id : String) (now : ℕ)
      → openings id w.owed ≡ 0
      → Step w (record w {
        registry = (remove id now w.registry).0;
        owed = w.owed ++ (remove id now w.registry).1;
      })
  reasons :
      (id reason : String) → Step w (record w { registry = set_close_reason id reason w.registry })
  closings :
      (reason : String) (pred : Conn → Bool)
      → Step w (record w { registry = (close_where reason pred w.registry).0 })
  tells :
      (before : List Notice) (n : Notice) (after : List Notice)
      → w.owed ≡ before ++ n ∷ after
      → Step w (record w { owed = before ++ after; told = w.told ++ n ∷ [] })
  fires : Step w (record w { registry = (fire w.registry).0 })

pub data Reach (w : World) : World → Type 0 where
  here : Reach w w
  next : {u v : World} → Reach w u → Step u v → Reach w v

abbrev pub live : Option Conn → ℕ
live none = 0
live (some c) = 1
