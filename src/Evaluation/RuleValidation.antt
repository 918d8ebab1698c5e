-- ===== src/Evaluation/RuleValidation.antt =====
-- backend/app/features/evaluation/rule_validation.py: `validate_rule_set`.
mod Defs
pub mod Exact
unfoldable pub use Defs.*
