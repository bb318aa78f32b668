-- ===== src/RateLimit.antt =====
-- packages/rate_limit: token buckets, concurrency permits, admission, quotas and retries.
pub mod Protocol
pub mod Memory
pub mod Redis
pub mod Admission
pub mod Governor
mod Tests
