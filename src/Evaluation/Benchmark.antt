-- ===== src/Evaluation/Benchmark.antt =====
-- backend/app/features/evaluation/benchmark.py: the scores of findings against a benchmark.
mod Defs
mod Scanning
pub mod Matching
pub mod Scores
unfoldable pub use Defs.*
