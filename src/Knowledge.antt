-- ===== src/Knowledge.antt =====
-- packages/knowledge/src/cloudcause_knowledge/store.py: billing rules, selected by the usage date.
pub mod Store
pub mod Effective
pub mod Citations
pub mod Tests
