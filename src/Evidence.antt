-- ===== src/Evidence.antt =====
-- packages/evidence: findings are claims until evidence supports them.
pub mod Checks
pub mod Validate
pub mod Ranking
pub mod Tests
