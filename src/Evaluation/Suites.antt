-- ===== src/Evaluation/Suites.antt =====
-- backend/app/features/evaluation/engine.py: the evaluation of a suite, with the evidence of coverage.
mod Evidence
mod Defs
mod Bounds
mod Notes
mod Traces
mod Results
mod Collection
pub mod Coverage
unfoldable pub use Evidence.*
unfoldable pub use Defs.*
