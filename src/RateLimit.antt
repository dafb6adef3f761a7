-- ===== src/RateLimit.antt =====
-- The token buckets of backend/app/shared/rate_limit.py.
pub mod Buckets
pub mod Balance
pub mod Parity
mod Tests
