-- ===== src/Predictions.antt =====
-- packages/scripts/shared/prediction_postprocessing.py: from a raw prediction to ranked candidates.
pub mod Conversions
pub mod Candidate
pub mod Source
pub mod Lookups
pub mod Supplements
pub mod Report
pub mod Converts
pub mod Merging
pub mod Looking
pub mod Cards
pub mod Ranked
pub mod Accepting
pub mod Reports
pub mod Sourced
pub mod Checked
pub mod Guarantees
pub mod Examples
pub mod Guard
