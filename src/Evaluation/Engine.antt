-- ===== src/Evaluation/Engine.antt =====
-- backend/app/features/evaluation/engine.py: the evaluation of one scenario.
mod Scenarios
mod Caught
mod Total
pub mod Verdicts
pub mod Reports
pub mod Returns
unfoldable pub use Scenarios.*
