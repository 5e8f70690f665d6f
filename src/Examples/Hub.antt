-- ===== src/Examples/Hub.antt =====
-- A hub with a listener of one system, a listener of everything, and a client that leaves.
use squelch.Prelude.{
  ℕ, ◌≡◌, refl, ◌≢◌, ◌↔◌, inr, true, false, [], ◌∷◌, none, some, String, text_comparable,
  nat_comparable, int_comparable,
}
use squelch.Prelude.Int.{ℤ, pos}
use squelch.Prelude.Dict.{lookup, insert, IsKeyed}
use squelch.Auth.Grants.{Grants}
use squelch.Connections.{new, get}
use squelch.Ws.Client.{Client}
use squelch.Ws.Hub.{Hub, Expired, new_hub, run_register, run_unregister}
use squelch.Ws.Hub.Shared.{held, listed}
use squelch.Ws.Hub.Agreement.{here, next, registers, unregisters, registry_agrees}

abbrev client : ℤ → String → Grants → Client
client user conn grants = record {
  user_id = user;
  username = "someone";
  role = "listener";
  jti = "token";
  family_id = "family";
  native = false;
  is_admin = false;
  protocol_version = "v1";
  grants = grants;
  conn_id = conn;
  address = none;
  capacity = 256;
  send = [];
  closed = false;
  drop_count = 0;
}

abbrev restricted : Client
restricted = client (pos 1) "a" (some (record { id = pos 5; talkgroups = pos 50 ∷ [] } ∷ []))

abbrev unrestricted : Client
unrestricted = client (pos 0) "b" none

abbrev two_clients : Hub
two_clients = record {
  clients = (1, restricted) ∷ (2, unrestricted) ∷ [];
  broadcast = [];
  conns = new;
  lsc_timer = false;
  done = false;
}

two_clients-IsKeyed : IsKeyed two_clients.clients
unfolding lookup
two_clients-IsKeyed = (refl, (refl, tt))

abbrev expired : Expired
expired = record { legacy = "XPR"; v1 = "session.expired" }

abbrev empty_hub : Hub
empty_hub = new_hub new

abbrev joined : Hub
joined = run_register 1 restricted "m" 4 empty_hub

abbrev left : Hub
left = (run_unregister 1 restricted 6 joined).0

unknown : lookup 1 empty_hub.clients ≡ none
unfolding lookup new_hub
unknown = refl

unlisted : get "a" empty_hub.conns ≡ none
unfolding get lookup new_hub new
unlisted = refl

named : ◌≢◌ {A = String} "a" ""
named h = cc

now_held : held joined 1 ≡ some "a"
unfolding run_register new_hub lookup insert
now_held = refl

registry_agrees_example :
    ((listed left "a" ≡ true) ↔ ((p : ℕ) × (held left p ≡ some "a")))
    × ((p q : ℕ) → held left p ≡ some "a" → held left q ≡ some "a" → p ≡ q)
unfolding new
registry_agrees_example = registry_agrees new "a" refl (
    next (next here (registers 1 restricted "m" 4 unknown named unlisted))
      (unregisters 1 restricted 6 named (inr now_held)))
