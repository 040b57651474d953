-- ===== src/Limiter.antt =====
-- internal/limiter: the rate-limiting core.
pub mod Config
pub mod Decision
pub mod TokenBucket
pub mod SlidingWindow
pub mod Algorithm
pub mod Stats
pub mod Persistence
pub mod Manager
pub mod Redis
pub mod Store
mod Tests
