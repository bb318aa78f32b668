-- ===== src/Focus.antt =====
-- packages/focus/src/cloudcause_focus: the normalization of provider exports to cost records, and
-- the records of an investigation's scope.
pub mod Versions
pub mod Categories
pub mod Normalizer
pub mod Parsers
pub mod Cells
pub mod Rows
pub mod Scope
pub mod Tests
