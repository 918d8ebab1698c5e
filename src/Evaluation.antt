-- ===== src/Evaluation.antt =====
-- backend/app/features/evaluation: the deterministic evaluation of policies.
pub mod Predicates
pub mod Conditions
pub mod Resolution
pub mod Compliance
pub mod Assertions
pub mod Engine
pub mod RuleValidation
pub mod Metrics
pub mod Reports
pub mod Benchmark
pub mod Suites
pub mod Findings
pub mod Tallies
pub mod Repairs
