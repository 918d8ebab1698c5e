-- ===== src/Domain/Graph.antt =====
-- The depth-first search for cycles of overrides, which backend/app/domain/models/policy.py and
-- backend/app/features/evaluation/rule_validation.py both contain.
mod Search
mod Order
mod Cycles
unfoldable pub use Search.*
pub use Order.*
pub use Cycles.*
