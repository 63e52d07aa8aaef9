-- ===== src/Breaker.antt =====
-- uam-backend/src/config/redisCircuitBreaker.ts
pub mod Config
pub mod Window
pub mod Circuit
pub mod Call
mod Tests
