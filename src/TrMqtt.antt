-- ===== src/TrMqtt.antt =====
-- backend/internal/trmqtt: the bridge to Trunk Recorder's MQTT messages.
pub mod Ring
