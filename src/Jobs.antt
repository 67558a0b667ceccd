-- ===== src/Jobs.antt =====
-- apps/api: asynchronous jobs.
pub mod Contract
pub mod Dispatch
pub mod Store
pub mod Service
pub mod Quiet
pub mod Filed
pub mod Tasks
pub mod Queries
pub mod Statistics
pub mod Submit
pub mod History
pub mod Outcomes
pub mod Reading
pub mod Examples
