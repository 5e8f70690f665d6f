-- ===== src/Ws.antt =====
-- backend/internal/ws: the WebSocket hub, which fans events out to listeners and admins.
pub mod Client
pub mod Hub
