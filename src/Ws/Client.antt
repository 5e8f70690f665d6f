-- ===== src/Ws/Client.antt =====
-- The parts of backend/internal/ws/client.go that the hub uses. The client's `send` channel is its
-- buffered frames, its capacity and whether it is closed; a frame is a text.
use squelch.Prelude.{
  ℕ, suc, Bool, true, List, [], ◌∷◌, ◌++◌, Option, String, ltb, ◌==◌, text_comparable,
  if◌then◌else◌, length,
}
use squelch.Prelude.Int.{ℤ}
use squelch.Auth.Grants.{Grants, has_system_access}
use squelch.Connections.{Conn, listener, admin}

pub record Client : Type 0 where
  pub user_id : ℤ
  pub username : String
  pub role : String
  pub jti : String
  pub family_id : String
  pub native : Bool
  pub is_admin : Bool
  pub protocol_version : String
  pub grants : Grants
  pub conn_id : String
  pub address : Option String
  pub capacity : ℕ
  pub send : List String
  pub closed : Bool
  pub drop_count : ℕ

abbrev pub protocol_v1 : String
protocol_v1 = "v1"

unfoldable pub is_v1 : Client → Bool
is_v1 c = c.protocol_version == protocol_v1

-- Closing twice does nothing.
unfoldable pub close_send : Client → Client
close_send c = record c { closed = true }

-- A send on a closed channel panics, is recovered, and counts as no drop.
unfoldable pub try_send : String → Client → Client
try_send frame c =
    if c.closed
    then c
    else if ltb (length c.send) c.capacity
    then record c { send = c.send ++ frame ∷ [] }
    else record c { drop_count = suc c.drop_count }

unfoldable pub can_receive : ℤ → ℤ → Client → Bool
can_receive system talkgroup c = has_system_access c.grants system talkgroup

unfoldable pub conn_info : Client → Conn
conn_info c = record {
  id = c.conn_id;
  kind = if c.is_admin then admin else listener;
  user_id = c.user_id;
  username = c.username;
  role = c.role;
  jti = c.jti;
  family_id = c.family_id;
  native = c.native;
  protocol = c.protocol_version;
  address = c.address;
  country = "";
  connected_at = 0;
}

-- The session-expired frames of the two protocols are the encoder's.
unfoldable pub encode_session_expired : String → String → Client → String
unfolding is_v1
encode_session_expired legacy v1 c = if is_v1 c then v1 else legacy
