-- ===== src/Evaluation/Resolution.antt =====
-- backend/app/features/evaluation/resolution.py: how the matching rules settle a dimension.
mod Defs
pub mod Survivors
pub mod Outcomes
mod Typed
pub mod Unsupported
pub mod Settled
unfoldable pub use Defs.*
