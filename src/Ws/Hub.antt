-- ===== src/Ws/Hub.antt =====
-- backend/internal/ws/hub.go. Clients are known by a number that stands for their pointer. What
-- the Run goroutine does for one message of its channels is one step, and so is each other method
-- between two acquisitions of the lock. Encoders give frames; `none` is their error.
pub mod Delivery
pub mod Turns
pub mod Shared
pub mod Matching
pub mod Agreement
pub mod Sessions
use squelch.Prelude.{
  ℕ, zero, suc, ◌+◌, Bool, true, false, not, ◌&&◌, ◌||◌, List, [], ◌∷◌, ◌++◌, Option, none, some,
  String, ltb, ◌==◌, text_comparable, nat_comparable, int_comparable, if◌then◌else◌, length,
}
use squelch.Prelude.Int.{ℤ, pos}
use squelch.Prelude.Dict.{Dict, lookup, insert, delete}
use squelch.Connections.{Registry, add, remove, set_close_reason}
use squelch.Ws.Client.{
  Client, is_v1, close_send, try_send, can_receive, conn_info, encode_session_expired,
}

-- A nil filter takes every client.
pub record BroadcastMsg : Type 0 where
  pub legacy : String
  pub v1 : Option String
  pub filter : Option (Client → Bool)

pub record Hub : Type 0 where
  pub clients : Dict ℕ Client
  pub broadcast : List BroadcastMsg
  pub conns : Registry
  pub lsc_timer : Bool
  pub done : Bool

abbrev pub broadcast_capacity : ℕ
broadcast_capacity = 256

unfoldable pub new_hub : Registry → Hub
new_hub conns = record {
  clients = [];
  broadcast = [];
  conns = conns;
  lsc_timer = false;
  done = false;
}

-- `debounceLSC`: whether it ran before or not, the timer is running afterwards.
unfoldable pub debounce_lsc : Hub → Hub
debounce_lsc h = record h { lsc_timer = true }

abbrev if_listener : Client → Hub → Hub
if_listener c h = if c.is_admin then h else debounce_lsc h

-- `case c := <-h.register`
unfoldable pub run_register : ℕ → Client → String → ℕ → Hub → Hub
unfolding debounce_lsc
run_register ptr c fresh now h = if_listener c (record h {
  clients = insert ptr c h.clients;
  conns = (add fresh now (conn_info c) true h.conns).0;
})

-- `case c := <-h.unregister`; `c` is what the pointer leads to. The second part is the client
-- afterwards, its channel closed if it was registered.
unfoldable pub run_unregister : ℕ → Client → ℕ → Hub → Hub × Client
unfolding debounce_lsc
run_unregister ptr c now h = elim (lookup ptr h.clients) [
  | none ↦ (if_listener c h, c)
  | some held ↦ (
    if_listener c
        (record h { clients = delete ptr h.clients; conns = (remove c.conn_id now h.conns).0 }),
    close_send held,
  )
]

unfoldable pub matches : BroadcastMsg → Client → Bool
matches msg c = elim msg.filter [ none ↦ true | some f ↦ f c ]

-- The frame in the client's protocol.
unfoldable pub frame_for : BroadcastMsg → Client → String
frame_for msg c = elim msg.v1 [ none ↦ msg.legacy | some v ↦ if is_v1 c then v else msg.legacy ]

unfoldable pub deliver : BroadcastMsg → Client → Client
unfolding matches frame_for
deliver msg c = if matches msg c then try_send (frame_for msg c) c else c

unfoldable pub deliver_all : BroadcastMsg → Dict ℕ Client → Dict ℕ Client
unfolding deliver
deliver_all msg [] = []
deliver_all msg ((ptr, c) ∷ rest) = (ptr, deliver msg c) ∷ deliver_all msg rest

-- `case msg := <-h.broadcast`, if a message waits.
unfoldable pub run_broadcast : Hub → Hub
unfolding deliver_all
run_broadcast h = elim h.broadcast [
  | [] ↦ h
  | msg ∷ rest ↦ record h { clients = deliver_all msg h.clients; broadcast = rest }
]

-- A message is dropped if the channel is full.
unfoldable pub broadcast_both : String → Option String → Option (Client → Bool) → Hub → Hub
broadcast_both legacy v1 filter h =
    if ltb (length h.broadcast) broadcast_capacity
    then record h {
      broadcast = h.broadcast ++ record { legacy = legacy; v1 = v1; filter = filter } ∷ [];
    }
    else h

-- An event of which both encodings were tried. Without the legacy one nothing is sent, and
-- without the native one the legacy frame goes to all.
unfoldable pub send_event : Option String → Option String → Option (Client → Bool) → Hub → Hub
unfolding broadcast_both
send_event none v1 filter h = h
send_event (some legacy) none filter h = broadcast_both legacy none filter h
send_event (some legacy) (some v1) filter h = broadcast_both legacy (some v1) filter h

abbrev pub to_admins : Client → Bool
to_admins c = c.is_admin

unfoldable pub broadcast_admin_event : Option String → Option String → Hub → Hub
unfolding send_event
broadcast_admin_event legacy v1 h = send_event legacy v1 (some to_admins) h

-- The third part says whether the call notifier is given the call.
unfoldable pub broadcast_cal :
    Option String × Option String
    → Option String × Option String
    → Option (Client → Bool)
    → Hub
    → Hub × Bool
unfolding broadcast_both broadcast_admin_event
broadcast_cal (none, v1) updated filter h = (h, false)
broadcast_cal (some legacy, none) (a, b) filter h =
    (broadcast_admin_event a b (broadcast_both legacy none filter h), false)
broadcast_cal (some legacy, some v1) (a, b) filter h =
    (broadcast_admin_event a b (broadcast_both legacy (some v1) filter h), true)

unfoldable pub broadcast_trn : Option String → Option String → ℤ → ℤ → Hub → Hub
unfolding send_event
broadcast_trn legacy v1 system talkgroup h =
    send_event legacy v1 (some (can_receive system talkgroup)) h

unfoldable pub stream_cue_filter : ℤ → Client → Bool
stream_cue_filter user c = is_v1 c && c.user_id == user

unfoldable pub send_stream_cue : Option String → ℤ → Hub → Hub
unfolding broadcast_both
send_stream_cue none user h = h
send_stream_cue (some cue) user h = broadcast_both cue none (some (stream_cue_filter user)) h

count_where : (Client → Bool) → Dict ℕ Client → ℕ
count_where p [] = 0
count_where p ((ptr, c) ∷ rest) = if p c then suc (count_where p rest) else count_where p rest

unfoldable pub client_count : Hub → ℕ
unfolding count_where
client_count h = count_where (λ c. not c.is_admin) h.clients

unfoldable pub count_by_user : ℤ → Hub → ℕ
unfolding count_where
count_by_user user h = count_where (λ c. c.user_id == user) h.clients

-- The debounce timer runs out: the listener count goes to all clients.
unfoldable pub fire_lsc : (ℕ → Option String) → (ℕ → Option String) → Hub → Hub
unfolding send_event client_count
fire_lsc legacy v1 h =
    send_event (legacy (client_count h)) (v1 (client_count h)) none (record h { lsc_timer = false })

unfoldable pub targets_where : (Client → Bool) → Dict ℕ Client → List (ℕ × Client)
targets_where p [] = []
targets_where p ((ptr, c) ∷ rest) =
    if p c then (ptr, c) ∷ targets_where p rest else targets_where p rest

abbrev pub reason_signout : String
reason_signout = "signout"

abbrev pub reason_shutdown : String
reason_shutdown = "shutdown"

-- The two frames of the encoder that say that the session is over.
pub record Expired : Type 0 where
  pub legacy : String
  pub v1 : String

-- `c.trySend(c.encodeSessionExpired())`, on the client that the pointer leads to.
unfoldable pub send_expired : Expired → ℕ → Hub → Hub
send_expired x ptr h = elim (lookup ptr h.clients) [
  | none ↦ h
  | some held ↦ record h {
    clients = insert ptr (try_send (encode_session_expired x.legacy x.v1 held) held) h.clients;
  }
]

-- Run has taken the client from the `unregister` channel when the next round begins.
unfoldable pub end_session : Expired → ℕ → ℕ × Client → Hub → Hub
unfolding send_expired run_unregister
end_session x now (ptr, c) h = (run_unregister ptr c now (send_expired x ptr h)).0

-- One round of the loop of a disconnect: the reason, the expired message, and Unregister.
unfoldable pub end_target : Expired → ℕ → ℕ × Client → Hub → Hub
unfolding end_session
end_target x now (ptr, c) h =
    end_session x now (ptr, c)
      (record h { conns = set_close_reason c.conn_id reason_signout h.conns })

unfoldable pub end_targets : Expired → ℕ → List (ℕ × Client) → Hub → Hub
unfolding end_target
end_targets x now [] h = h
end_targets x now (t ∷ ts) h = end_targets x now ts (end_target x now t h)

abbrev pub is_user : ℤ → Client → Bool
is_user user c = c.user_id == user

abbrev pub is_anonymous : Client → Bool
is_anonymous c = c.user_id == pos 0 && not c.is_admin

abbrev pub has_jti : String → Client → Bool
has_jti jti c = c.jti == jti

-- The sessions that are no WebSocket clients are the session revoker's.
unfoldable pub disconnect_by_user : Expired → ℤ → ℕ → Hub → Hub
unfolding end_targets targets_where
disconnect_by_user x user now h = end_targets x now (targets_where (is_user user) h.clients) h

unfoldable pub disconnect_anonymous : Expired → ℕ → Hub → Hub
unfolding end_targets targets_where
disconnect_anonymous x now h = end_targets x now (targets_where is_anonymous h.clients) h

unfoldable pub disconnect_by_jti : Expired → String → ℕ → Hub → Hub
unfolding end_targets targets_where
disconnect_by_jti x jti now h =
    if jti == "" then h else end_targets x now (targets_where (has_jti jti) h.clients) h

-- `closeAll`: one client of its loop, which also closes the client's channel.
unfoldable pub close_one : ℕ → ℕ × Client → Hub → Hub
close_one now (ptr, c) h = record h {
  clients = delete ptr h.clients;
  conns = (remove c.conn_id now (set_close_reason c.conn_id reason_shutdown h.conns)).0;
}

unfoldable pub close_each : ℕ → List (ℕ × Client) → Hub → Hub
unfolding close_one
close_each now [] h = h
close_each now (t ∷ ts) h = close_each now ts (close_one now t h)

unfoldable pub close_all : ℕ → Hub → Hub
unfolding close_each
close_all now h = record (close_each now h.clients (record h { done = true })) { lsc_timer = false }
