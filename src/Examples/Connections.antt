-- ===== src/Examples/Connections.antt =====
-- A listener that connects, is told to leave, and goes.
use squelch.Prelude.{◌+◌, ◌≤◌, ◌≡◌, refl, ◌≢◌, Bool, true, false, [], ◌∷◌, ◌++◌, none, some, String}
use squelch.Prelude.Int.{pos}
use squelch.Prelude.Dict.{lookup, insert}
use squelch.Connections.{
  Conn, Registry, listener, new, set_observer, add, remove, get, completed, opened, closed,
}
use squelch.Connections.Runs.{
  World, Reach, adds, removes, tells, here, next, live, openings, endings,
}
use squelch.Connections.History.{start, history_balanced}

abbrev alice : Conn
alice = record {
  id = "a";
  kind = listener;
  user_id = pos 7;
  username = "alice";
  role = "listener";
  jti = "j";
  family_id = "f";
  native = false;
  protocol = "v1";
  address = some "10.0.0.1";
  country = "";
  connected_at = 5;
}

abbrev everyone : Conn → Bool
everyone c = true

abbrev connected : Registry
connected = record {
  conns = ("a", record { conn = alice; closes = true; reason = "" }) ∷ [];
  on_change = true;
  observer = true;
  country = none;
  timer = false;
}

abbrev after_add : World
after_add = record {
  registry = (add "m" 9 alice true start.registry).0;
  owed = start.owed ++ (add "m" 9 alice true start.registry).2;
  told = start.told;
}

minted : ◌≢◌ {A = String} "m" ""
minted h = cc

not_live : get (completed "m" 9 start.registry alice).id start.registry ≡ none
unfolding completed get lookup new set_observer
not_live = refl

-- The opening is handed over,
abbrev after_opened : World
after_opened = record after_add { owed = []; told = opened alice ∷ [] }

-- the connection removed,
abbrev after_remove : World
after_remove = record after_opened {
  registry = (remove "a" 12 after_opened.registry).0;
  owed = after_opened.owed ++ (remove "a" 12 after_opened.registry).1;
}

-- and its end handed over.
abbrev after_closed : World
after_closed = record after_remove {
  owed = [];
  told = opened alice ∷ closed alice "client" 12 ∷ [];
}

closed_reached : Reach start after_closed
unfolding add remove completed lookup new set_observer insert
closed_reached =
    next
      (next
        (next (next here (adds "m" 9 alice true minted not_live)) (tells [] (opened alice) [] refl))
        (removes "a" 12 refl))
      (tells [] (closed alice "client" 12) [] refl)

history_balanced_example :
    (endings "a" after_closed.told ≤ openings "a" after_closed.told)
    × (openings "a" after_closed.told + openings "a" after_closed.owed
        ≡ endings "a" after_closed.told
          + endings "a" after_closed.owed
          + live (get "a" after_closed.registry))
history_balanced_example = history_balanced "a" closed_reached

named : ◌≢◌ {A = String} "a" ""
named h = cc
