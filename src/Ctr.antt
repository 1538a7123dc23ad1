-- ===== src/Ctr.antt =====
-- ctrDataSync: contact records to updates of voice calls.
pub mod Records
pub mod Attributes
pub mod Transform
pub mod Sync
