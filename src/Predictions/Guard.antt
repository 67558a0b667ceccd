-- ===== src/Predictions/Guard.antt =====
-- packages/scripts/shared/prediction_output_guard.py: the final three horses of a prediction.
pub mod Reading
pub mod Output
pub mod Restored
pub mod Filling
pub mod Ordered
pub mod Finals
pub mod Repairs
pub mod Accepted
mod Examples
