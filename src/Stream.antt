-- ===== src/Stream.antt =====
-- backend/internal/stream: one continuous audio stream for each listener.
pub mod Frames
pub mod Listeners
