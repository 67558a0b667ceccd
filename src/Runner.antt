-- ===== src/Runner.antt =====
-- apps/api/infrastructure/background_tasks.py: the task runner.
pub mod Task
pub mod Events
pub mod Tally
pub mod Books
pub mod Registry
pub mod Health
pub mod Ending
pub mod Retries
pub mod Stopping
pub mod Cancellation
pub mod Examples
