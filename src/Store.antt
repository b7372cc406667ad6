-- ===== src/Store.antt =====
-- The data-access layer internal/store over an explicit database.
pub mod Rows
pub mod Db
pub mod Scope
pub mod Schedules
pub mod Occurrences
pub mod Events
pub mod Integrity
pub mod Steps
pub mod Found
