-- ===== src/Redis/Agreement.antt =====
-- That internal/limiter/redis decides as internal/limiter/memory.go does, the implementation that
-- the tests compare it with.
pub mod Bucket
pub mod Window
pub mod Sets
