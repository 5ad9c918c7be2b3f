-- ===== src/Agents.antt =====
-- hub/src/agents: the registry, and the sweep that turns silence into an alert.
pub mod Service
pub mod Liveness
pub mod Sweep
pub mod Watch
pub mod Recovery
pub mod Enrollment
