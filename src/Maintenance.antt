-- ===== src/Maintenance.antt =====
-- hub/src/maintenance: what the nightly sweep deletes.
pub mod Retention
pub mod ForeignKeys
pub mod RetentionLaws
pub mod RollUp
pub mod RollUpLaws
pub mod RollUpWindow
pub mod RollUpCounted
pub mod RollUpWhole
pub mod Sweep
pub mod History
pub mod Progress
