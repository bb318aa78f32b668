-- ===== src/Playbooks.antt =====
-- packages/worker_core/src/cloudcause_worker_core/playbooks.py: the deterministic investigation of the
-- candidates of one provider.
pub mod Spec
pub mod Match
pub mod Score
pub mod Build
pub mod Covers
pub mod Tests
