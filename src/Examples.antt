-- ===== src/Examples.antt =====
-- Concrete inputs, and the theorems of the library applied to them.
pub mod Data
pub mod Pools
pub mod Pipelines
pub mod Schedules
pub mod Performance
pub mod Programs
pub mod Collections
pub mod Loops
pub mod Connections
pub mod Recordings
pub mod Exports
pub mod Startups
