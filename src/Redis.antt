-- ===== src/Redis.antt =====
-- The shared counter store (internal/limiter/redis): the script check.lua, which decides, and the
-- Go client in redis.go, which calls it. The Redis server is a parameter.
pub mod Commands
pub mod Script
pub mod Client
pub mod Calls
pub mod Fences
pub mod Traffic
pub mod Reply
pub mod Agreement
pub mod Identity
pub mod Naming
mod Tests
