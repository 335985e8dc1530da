-- ===== src/Types.antt =====
-- The data of src/types/types.go that the daemons use.
pub mod Meta
pub mod Rules
pub mod Events
pub mod Workloads
