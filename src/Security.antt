-- ===== src/Security.antt =====
-- hub/src/common: who is calling, and what they may do.
pub mod Tokens
pub mod Credential
pub mod Guard
pub mod Policy
pub mod PolicyLaws
pub mod GuardLaws
