-- ===== src/Pipelines.antt =====
-- apps/api/pipelines/base.py: pipelines of stages over one context.
pub mod Context
pub mod Stage
pub mod Pipeline
pub mod Undo
pub mod Steps
pub mod Rounds
pub mod Loop
pub mod Execution
pub mod Examples
