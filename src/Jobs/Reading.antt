-- ===== src/Jobs/Reading.antt =====
-- What the queries of apps/api/services/job_service.py answer.
pub mod Order
pub mod Listing
pub mod Progress
pub mod Counting
pub mod Logs
