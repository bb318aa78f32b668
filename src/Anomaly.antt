-- ===== src/Anomaly.antt =====
-- packages/anomaly/src/cloudcause_anomaly: the deterministic comparison of two periods.
pub mod Daily
pub mod Aggregates
pub mod Compare
pub mod Grouping
pub mod Actors
pub mod Allocation
pub mod Join
pub mod Groups
pub mod Material
pub mod Tests
