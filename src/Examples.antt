-- ===== src/Examples.antt =====
-- A small database of internal/store/store.go, and the properties at work on it.
pub mod Data
mod Dates
mod Requests
mod Retries
mod Runs
mod Http
mod Jobs
mod Sweeps
mod Boot
