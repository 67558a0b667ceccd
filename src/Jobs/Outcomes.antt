-- ===== src/Jobs/Outcomes.antt =====
-- What the operations of apps/api/services/job_service.py return and leave behind, branch by branch.
mod Rows
pub mod Composed
pub mod Outages
pub mod Owners
pub mod Batches
pub mod Tasks
pub mod Endings
pub mod Finished
pub mod Pipelines
pub mod Starting
pub mod Published
pub mod Creating
pub mod Cancelling
pub mod Cleaning
pub mod CleaningOutages
