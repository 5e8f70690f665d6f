-- ===== src/Ws/Hub/Turns.antt =====
-- Run's turns over the messages that wait in the hub's channel, oldest first.
use mathlib.Core.List.{append_assoc, append-nil}
use mathlib.Core.Path.{subst}
use squelch.Prelude.{
  ℕ, zero, suc, Bool, ltb, length, sym, Bool-cases, ◌≡◌, true, List, [], ◌∷◌, ◌++◌, Option, none,
  some, refl, ap, ◌∙◌, inl, inr, String, text_comparable, nat_comparable, int_comparable, arith,
}
use squelch.Prelude.Dict.{Dict}
use squelch.Ws.Client.{Client}
use squelch.Ws.Hub.{
  Hub, BroadcastMsg, run_broadcast, broadcast_both, broadcast_cal, broadcast_admin_event,
  send_event, deliver_all, broadcast_capacity, to_admins,
}
use squelch.Ws.Hub.Delivery.{map_client}

-- Some turns of Run's loop that take a message from the channel.
abbrev pub turns : ℕ → Hub → Hub
turns zero hub = hub
turns (suc n) hub = turns n (run_broadcast hub)

-- The clients after each of the messages in turn.
abbrev pub deliver_each : List BroadcastMsg → Dict ℕ Client → Dict ℕ Client
deliver_each [] m = m
deliver_each (msg ∷ msgs) m = deliver_each msgs (deliver_all msg m)

run_broadcast-next :
    (msg : BroadcastMsg) (rest : List BroadcastMsg) (hub : Hub)
    → hub.broadcast ≡ msg ∷ rest
    → run_broadcast hub ≡ record hub { clients = deliver_all msg hub.clients; broadcast = rest }
unfolding run_broadcast
run_broadcast-next msg rest hub e = rw e refl

-- The messages that wait are taken one by one.
pub turns-clients :
    (msgs rest : List BroadcastMsg) (hub : Hub)
    → hub.broadcast ≡ msgs ++ rest
    → ((turns (length msgs) hub).clients ≡ deliver_each msgs hub.clients)
      × ((turns (length msgs) hub).broadcast ≡ rest)
turns-clients [] rest hub e = (refl, e)
turns-clients (msg ∷ msgs) rest hub e =
    let after : Hub = record hub {
      clients = deliver_all msg hub.clients;
      broadcast = msgs ++ rest;
    } in
    subst
      (λ (h : Hub).
        ((turns (length msgs) h).clients ≡ deliver_each msgs (deliver_all msg hub.clients))
        × ((turns (length msgs) h).broadcast ≡ rest))
      (sym (run_broadcast-next msg (msgs ++ rest) hub e)) (turns-clients msgs rest after refl)

turns-suc : (n : ℕ) (hub : Hub) → turns (suc n) hub ≡ run_broadcast (turns n hub)
turns-suc zero hub = refl
turns-suc (suc n) hub = turns-suc n (run_broadcast hub)

-- The message that comes after those that wait.
pub turns-next :
    (msgs rest : List BroadcastMsg) (msg : BroadcastMsg) (hub : Hub)
    → hub.broadcast ≡ msgs ++ msg ∷ rest
    → (turns (suc (length msgs)) hub).clients ≡ deliver_all msg (deliver_each msgs hub.clients)
turns-next msgs rest msg hub e =
    let (clients, left) = turns-clients msgs (msg ∷ rest) hub e in
    ap (λ (h : Hub). h.clients)
      (turns-suc (length msgs) hub ∙ run_broadcast-next msg rest (turns (length msgs) hub) left)
    ∙ ap (deliver_all msg) clients

broadcast_both-Keeps :
    (legacy : String) (v1 : Option String) (f : Option (Client → Bool)) (hub : Hub)
    → let hub' = broadcast_both legacy v1 f hub in
      (rest : List BroadcastMsg) × (hub'.broadcast ≡ hub.broadcast ++ rest)
      × (hub'.clients ≡ hub.clients)
unfolding broadcast_both
broadcast_both-Keeps legacy v1 f hub =
    elim (Bool-cases (ltb (length hub.broadcast) broadcast_capacity)) [
      | inl room ↦ (
        record { legacy = legacy; v1 = v1; filter = f } ∷ [],
        ground (arith, room),
        ground (arith, room),
      )
      | inr full ↦ ([], ground (arith, full, append-nil hub.broadcast), ground (arith, full))
    ]

-- Another event goes behind the messages that wait, if anywhere.
send_event-Keeps :
    (legacy v1 : Option String) (f : Option (Client → Bool)) (hub : Hub)
    → let hub' = send_event legacy v1 f hub in
      (rest : List BroadcastMsg) × (hub'.broadcast ≡ hub.broadcast ++ rest)
      × (hub'.clients ≡ hub.clients)
unfolding send_event
send_event-Keeps none v1 f hub = ([], sym (append-nil hub.broadcast), refl)
send_event-Keeps (some legacy) none f hub = broadcast_both-Keeps legacy none f hub
send_event-Keeps (some legacy) (some v) f hub = broadcast_both-Keeps legacy (some v) f hub

-- The message of a call goes directly behind those that wait, where there is room.
pub broadcast_cal-Queues :
    (legacy : String) (v1 : Option String) (updated : Option String × Option String)
    (f : Option (Client → Bool)) (hub : Hub)
    → ltb (length hub.broadcast) broadcast_capacity ≡ true
    → let hub' = (broadcast_cal (some legacy, v1) updated f hub).0 in
      (rest : List BroadcastMsg) × (hub'.broadcast
        ≡ hub.broadcast ++ record { legacy = legacy; v1 = v1; filter = f } ∷ rest)
      × (hub'.clients ≡ hub.clients)
unfolding broadcast_cal broadcast_admin_event broadcast_both
broadcast_cal-Queues legacy none (a, b) f hub room =
    let msg : BroadcastMsg = record { legacy = legacy; v1 = none; filter = f } in
    let (rest, queued, kept) =
      send_event-Keeps a b (some to_admins)
        (record hub { broadcast = hub.broadcast ++ msg ∷ [] }) in
    (rest, rw room (queued ∙ append_assoc hub.broadcast (msg ∷ []) rest), rw room kept)
broadcast_cal-Queues legacy (some v) (a, b) f hub room =
    let msg : BroadcastMsg = record { legacy = legacy; v1 = some v; filter = f } in
    let (rest, queued, kept) =
      send_event-Keeps a b (some to_admins)
        (record hub { broadcast = hub.broadcast ++ msg ∷ [] }) in
    (rest, rw room (queued ∙ append_assoc hub.broadcast (msg ∷ []) rest), rw room kept)

pub map_client-same :
    {f g : Client → Client}
    → ((c : Client) → f c ≡ g c)
    → (c : Option Client) → map_client f c ≡ map_client g c
map_client-same same none = refl
map_client-same same (some c) = ap some (same c)
