-- ===== src/Contracts.antt =====
-- packages/contracts: the data types that every component exchanges. Dates are day numbers and
-- timestamps numbers of an integral unit, since the code only compares and subtracts them.
pub mod Common
pub mod Analytics
pub mod Investigation
pub mod Records
pub mod Knowledge
pub mod Request
pub mod Report
pub mod Bundle
