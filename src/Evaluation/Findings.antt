-- ===== src/Evaluation/Findings.antt =====
-- backend/app/features/evaluation/findings.py: findings, grouped by their root cause.
mod Groups
mod Analysis
mod Sound
mod Kept
pub mod Supported
unfoldable pub use Groups.*
unfoldable pub use Analysis.*
