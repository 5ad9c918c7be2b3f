-- ===== src/Api.antt =====
-- hub/src: the controllers, which put the guard's identity, the policy, the services and the audit
-- trail together. Routes, decorators and the validation of bodies are the framework's.
pub mod Trail
pub mod Mode
pub mod ModeLaws
pub mod Acknowledge
pub mod AcknowledgeLaws
pub mod Schedules
pub mod Cameras
pub mod Streams
pub mod Opening
pub mod StreamLaws
pub mod Enroll
pub mod Access
pub mod Permitted
pub mod Queries
pub mod Zones
