-- ===== src/RateLimit.antt =====
-- Rate limits: the login limiter and the distributed limiter.
pub mod Robust
pub mod Login
mod Tests
