-- ===== src/Ws/Hub/Shared.antt =====
-- What the hub and the connection registry each say of the connections, and how the operations on
-- either change it.
use squelch.Prelude.{
  List-cases, ℕ, ◌≡◌, refl, ◌≢◌, Bool, true, false, not, Option, none, some, String, ◌==◌,
  nat_comparable, text_comparable, if◌then◌else◌, arith, ==_iff, Option-cases, inl, inr,
}
use squelch.Prelude.Dict.{lookup, lookup-insert, lookup-delete}
use squelch.Connections.{
  Conn, Kind, listener, admin, stream, Registry, Entry, add, remove, set_close_reason, completed,
}
use squelch.Ws.Client.{Client, conn_info, try_send, encode_session_expired}
use squelch.Ws.Hub.{
  Hub, BroadcastMsg, Expired, run_broadcast, deliver, broadcast_both, send_expired,
}
use squelch.Ws.Hub.Delivery.{lookup-deliver_all, map_client}

-- The connection id of the client that a pointer leads to, if it is registered.
abbrev pub conn_id_of : Option Client → Option String
conn_id_of none = none
conn_id_of (some c) = some c.conn_id

abbrev pub held : Hub → ℕ → Option String
held h p = conn_id_of (lookup p h.clients)

abbrev pub is_stream : Kind → Bool
is_stream stream = true
is_stream listener = false
is_stream admin = false

-- Whether the registry has an entry of a WebSocket client under the id.
abbrev pub is_socket : Option Entry → Bool
is_socket none = false
is_socket (some e) = not (is_stream e.conn.kind)

abbrev pub listed : Hub → String → Bool
listed h id = is_socket (lookup id h.conns.conns)

pub completed-id :
    (fresh : String) (now : ℕ) (r : Registry) (c : Conn)
    → c.id ≢ ""
    → (completed fresh now r c).id ≡ c.id
unfolding completed
completed-id fresh now r c ne = ground (arith, ==_iff c.id "", ==_iff c.country "")

pub completed-kind :
    (fresh : String) (now : ℕ) (r : Registry) (c : Conn) → (completed fresh now r c).kind ≡ c.kind
unfolding completed
completed-kind fresh now r c = ground (arith, ==_iff c.country "")

pub conn_info-is_stream : (c : Client) → is_stream (conn_info c).kind ≡ false
unfolding conn_info
conn_info-is_stream c = ground arith

-- What each operation on the registry does to the entries of WebSocket clients.
pub is_socket-add :
    (fresh : String) (now : ℕ) (c : Conn) (r : Registry) (id : String)
    → c.id ≢ ""
    → is_socket (lookup id (add fresh now c true r).0.conns)
      ≡ (if c.id == id then not (is_stream c.kind) else is_socket (lookup id r.conns))
unfolding add
is_socket-add fresh now c r id ne =
    let c' = completed fresh now r c in
    ground (
      arith,
      completed-id fresh now r c ne,
      completed-kind fresh now r c,
      lookup-insert c'.id id (record { conn = c'; closes = true; reason = "" }) r.conns,
    )

pub is_socket-remove :
    (i : String) (now : ℕ) (r : Registry) (id : String)
    → i ≢ ""
    → is_socket (lookup id (remove i now r).0.conns)
      ≡ (if i == id then false else is_socket (lookup id r.conns))
unfolding remove
is_socket-remove i now r id ne = elim (Option-cases (lookup i r.conns)) [
  | inl missing ↦ ground (arith, missing, ==_iff i "", ==_iff i id)
  | inr (e, found) ↦ ground (arith, found, ==_iff i "", lookup-delete i id r.conns)
]

pub is_socket-set_close_reason :
    (i reason : String) (r : Registry) (id : String)
    → is_socket (lookup id (set_close_reason i reason r).conns) ≡ is_socket (lookup id r.conns)
unfolding set_close_reason
is_socket-set_close_reason i reason r id = elim (Option-cases (lookup i r.conns)) [
  | inl missing ↦ ground (arith, missing, ==_iff i "")
  | inr (e, found) ↦
      ground (arith, found, ==_iff i id, lookup-insert i id (record e { reason = reason }) r.conns)
]

-- Sending changes no client's id.
pub held-deliver :
    (msg : BroadcastMsg) (c : Option Client)
    → conn_id_of (map_client (deliver msg) c) ≡ conn_id_of c
unfolding deliver try_send
held-deliver msg none = refl
held-deliver msg (some c) = ground arith

pub held-run_broadcast : (h : Hub) (p : ℕ) → held (run_broadcast h) p ≡ held h p
unfolding run_broadcast
held-run_broadcast h p = elim (List-cases h.broadcast) [
  | inl empty ↦ ground (arith, empty)
  | inr (msg, rest, waiting) ↦
      ground
        (arith, waiting, lookup-deliver_all msg p h.clients, held-deliver msg (lookup p h.clients))
]

pub held-send_expired :
    (x : Expired) (ptr : ℕ) (h : Hub) (p : ℕ) → held (send_expired x ptr h) p ≡ held h p
unfolding send_expired try_send
held-send_expired x ptr h p = elim (Option-cases (lookup ptr h.clients)) [
  | inl missing ↦ ground (arith, missing)
  | inr (c, found) ↦ ground (
    arith,
    found,
    ==_iff ptr p,
    lookup-insert ptr p (try_send (encode_session_expired x.legacy x.v1 c) c) h.clients,
  )
]

pub held-broadcast_both :
    (legacy : String) (v1 : Option String) (filter : Option (Client → Bool)) (h : Hub) (p : ℕ)
    → held (broadcast_both legacy v1 filter h) p ≡ held h p
unfolding broadcast_both
held-broadcast_both legacy v1 filter h p = ground arith

-- Nor does it touch the registry.
pub listed-run_broadcast : (h : Hub) (id : String) → listed (run_broadcast h) id ≡ listed h id
unfolding run_broadcast
listed-run_broadcast h id = ground arith

pub listed-broadcast_both :
    (legacy : String) (v1 : Option String) (filter : Option (Client → Bool)) (h : Hub) (id : String)
    → listed (broadcast_both legacy v1 filter h) id ≡ listed h id
unfolding broadcast_both
listed-broadcast_both legacy v1 filter h id = ground arith

pub listed-send_expired :
    (x : Expired) (p : ℕ) (h : Hub) (id : String) → listed (send_expired x p h) id ≡ listed h id
unfolding send_expired
listed-send_expired x p h id = ground arith
