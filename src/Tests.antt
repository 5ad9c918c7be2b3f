-- ===== src/Tests.antt =====
-- Concrete data, and the theorems applied to it.
mod Database
mod Samples
mod Alerting
mod Access
mod Feeding
mod Scheduling
mod Watching
mod Rolling
mod Serving
mod Streaming
mod Capturing
mod Summing
mod Starting
mod Keeping
mod Reporting
mod Notifying
