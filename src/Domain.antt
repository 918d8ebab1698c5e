-- ===== src/Domain.antt =====
-- The frozen contracts of backend/app/domain/models: the vocabulary, the policy with its
-- validators, scenarios and suites, coverage and findings.
pub mod Vocabulary
pub mod Value
pub mod Predicate
pub mod Facts
pub mod Graph
pub mod Rule
pub mod Digest
pub mod Drafts
pub mod Policy
pub mod Intent
pub mod Scenario
pub mod Coverage
pub mod Finding
