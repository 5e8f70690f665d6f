-- ===== src/Ws/Hub/Delivery.antt =====
-- What a broadcast brings to each client.
use squelch.Prelude.{
  ℕ, ◌≡◌, refl, [], ◌∷◌, Option, none, some, String, ◌==◌, nat_comparable, text_comparable,
  int_comparable, if◌then◌else◌, arith,
}
use squelch.Prelude.Int.{ℤ}
use squelch.Prelude.Dict.{Dict, lookup}
use squelch.Auth.Grants.{has_system_access}
use squelch.Ws.Client.{Client, is_v1, try_send, can_receive}
use squelch.Ws.Hub.{
  BroadcastMsg, Hub, matches, frame_for, deliver, deliver_all, run_broadcast, broadcast_both,
  send_event, broadcast_trn,
}

abbrev pub map_client : (Client → Client) → Option Client → Option Client
map_client f none = none
map_client f (some c) = some (f c)

pub lookup-deliver_all :
    (msg : BroadcastMsg) (p : ℕ) (m : Dict ℕ Client)
    → lookup p (deliver_all msg m) ≡ map_client (deliver msg) (lookup p m)
unfolding deliver_all lookup
lookup-deliver_all msg p [] = refl
lookup-deliver_all msg p ((key, c) ∷ rest) = ground (arith, lookup-deliver_all msg p rest)

-- What a client may get of a call's transcript: nothing without a grant, else one frame in its own
-- protocol, the legacy one if the native encoding failed.
abbrev pub after_transcript : String → Option String → ℤ → ℤ → Client → Client
after_transcript legacy v1 system talkgroup c =
    if has_system_access c.grants system talkgroup
    then try_send
        (if c.protocol_version == "v1" then elim v1 [ none ↦ legacy | some v ↦ v ] else legacy) c
    else c

-- A transcript that is broadcast while no other message waits reaches, once Run has taken it,
-- exactly the registered clients whose grants cover the call, in the protocol of each.
pub run_broadcast-broadcast_trn :
    (legacy : String) (v1 : Option String) (system talkgroup : ℤ) (p : ℕ) (h : Hub)
    → h.broadcast ≡ []
    → let h' = run_broadcast (broadcast_trn (some legacy) v1 system talkgroup h) in
      lookup p h'.clients
      ≡ map_client (after_transcript legacy v1 system talkgroup) (lookup p h.clients)
unfolding run_broadcast broadcast_trn send_event broadcast_both deliver matches frame_for
    can_receive is_v1
run_broadcast-broadcast_trn legacy none system talkgroup p h idle = ground (
  arith,
  idle,
  lookup-deliver_all
      (record { legacy = legacy; v1 = none; filter = some (can_receive system talkgroup) }) p
      h.clients,
)
run_broadcast-broadcast_trn legacy (some v) system talkgroup p h idle = ground (
  arith,
  idle,
  lookup-deliver_all
      (record { legacy = legacy; v1 = some v; filter = some (can_receive system talkgroup) }) p
      h.clients,
)
