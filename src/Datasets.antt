-- ===== src/Datasets.antt =====
-- packages/datasets/src/cloudcause_datasets: the user's own data, sealed once and read by id.
pub mod Model
pub mod Store
pub mod Assembly
pub mod Slots
pub mod Sealed
pub mod Capacity
pub mod Topology
pub mod Tests
