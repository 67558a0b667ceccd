-- ===== src/Rankings.antt =====
-- packages/scripts/shared/alternative_ranking.py: the order of a race from what is known before it.
pub mod Values
pub mod Key
pub mod Ranking
pub mod Order
pub mod Determinism
mod Examples
