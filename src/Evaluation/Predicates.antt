-- ===== src/Evaluation/Predicates.antt =====
-- Predicates over the facts of a scenario, and their totality.
mod Kinds
mod Traces
mod Totality
pub use Kinds.*
unfoldable pub use Traces.*
pub use Totality.*
