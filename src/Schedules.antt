-- ===== src/Schedules.antt =====
-- hub/src/schedules: scheduled arming.
pub mod LocalTime
pub mod Due
pub mod Runner
pub mod Editing
pub mod Edited
pub mod Once
pub mod Firing
pub mod Clock
