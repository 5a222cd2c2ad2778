-- ===== src/Limiter.antt =====
-- The rate limiter (internal/limiter): limits, the two algorithms and the in-memory store.
pub mod Limit
pub mod Request
pub mod Gcra
pub mod Window
pub mod Memory
mod Tests
