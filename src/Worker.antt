-- ===== src/Worker.antt =====
-- packages/worker_core/src/cloudcause_worker_core and the retries of packages/rate_limit: the jobs that the
-- gateway follows, the budget of live calls, and the bounded retries.
pub mod Jobs
pub mod Budget
pub mod Capacity
pub mod Retry
pub mod Engine
pub mod RetryPolicy
pub mod Tests
