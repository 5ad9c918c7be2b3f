-- ===== src/Contracts.antt =====
-- packages/contracts: the types and the role map that the hub and the dashboard share.
pub mod Modes
pub mod Auth
