-- ===== src/Evaluation/Conditions.antt =====
-- backend/app/features/evaluation/rule_validation.py: whether a conjunction of predicates can hold,
-- and whether it always holds, by trying finitely many values of each field.
mod Candidates
unfoldable pub use Candidates.*
mod Descent
mod Fields
mod Assembly
pub mod Results
pub mod Satisfiable
pub mod Unrestricted
