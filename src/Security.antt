-- ===== src/Security.antt =====
-- src/scam2market/security/rate_limiter.py: the token bucket of a client and the two middlewares.
pub mod RateLimiter
pub mod Bounds
mod Tests
