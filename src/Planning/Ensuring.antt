-- ===== src/Planning/Ensuring.antt =====
-- What a pass that ensures a job for each Case of a query does to the job table.
pub mod Rows
pub mod Found
pub mod Calls
pub mod Passes
