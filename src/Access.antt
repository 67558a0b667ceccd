-- ===== src/Access.antt =====
-- apps/api/dependencies/auth.py and apps/api/policy: who may call the API, and how often.
pub mod Policy
pub mod Keys
pub mod Requests
pub mod Granted
pub mod Admitted
pub mod Races
pub mod Counting
pub mod Limits
pub mod Resources
pub mod Usage
pub mod RateLimit
pub mod Limited
pub mod KeyLimit
mod LimitExamples
mod Examples
