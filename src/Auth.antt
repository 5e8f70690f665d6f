-- ===== src/Auth.antt =====
-- backend/internal/auth, with backend/internal/handler/auth/replay_cache.go: who may sign in, and
-- what a signed-in listener may hear.
pub mod RateLimiter
pub mod Grants
pub mod Tokens
pub mod ReplayCache
