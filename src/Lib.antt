-- ===== src/Lib.antt =====
-- Verification of policyfuzz: the deterministic evaluation of expense policies and the stages of a
-- run.
--
-- A policy is a list of rules with conditions, effects in five dimensions and overrides between
-- rules. A scenario is a set of facts with assertions. The engine evaluates the conditions on the
-- facts, resolves each dimension from the rules that match, derives the compliance of the
-- requirements, scores the assertions and reduces them to a verdict. A run moves through stages, in
-- three of which a person reviews. The run store keeps the runs until their deadline; it answers
-- requests that the event loop interleaves.
--
-- Files, with the code that each models (paths below backend/app):
--   Prelude                      exceptions as values, lists, tests and sorting as Python has them
--   Domain.Vocabulary            domain/models/common.py
--   Domain.Value                 the operator table of features/evaluation/predicates.py
--   Domain.Predicate, Rule, Intent, Policy, Graph
--                                domain/models/policy.py; Graph is the search `visit`
--   Domain.Digest                domain/models/common.py (`Sha256`)
--   Domain.Drafts                the validators of spans, rules and unsupported clauses in
--                                domain/models/common.py and policy.py
--   Domain.Facts, Scenario, Coverage
--                                domain/models/scenario.py
--   Domain.Finding               findings of domain/models/evaluation.py
--   Evaluation.Predicates        features/evaluation/predicates.py
--   Evaluation.Conditions, RuleValidation
--                                features/evaluation/rule_validation.py
--   Evaluation.Resolution        features/evaluation/resolution.py (`resolve_dimension`)
--   Evaluation.Compliance        features/evaluation/compliance.py
--   Evaluation.Assertions        features/evaluation/assertions.py
--   Evaluation.Engine            features/evaluation/engine.py (`evaluate_scenario`)
--   Evaluation.Metrics, Tallies  features/evaluation/metrics.py, and `effect_counts` and
--                                `compare_assertion_outcomes` of features/evaluation/regression.py
--   Evaluation.Repairs           features/evaluation/regression.py (`target_witnesses_fixed`)
--   Evaluation.Suites            features/evaluation/engine.py (`evaluate`, the anchors)
--   Evaluation.Findings          features/evaluation/findings.py
--   Evaluation.Benchmark         features/evaluation/benchmark.py
--   Workflow.Stages              workflow/state_machine.py
--   Workflow.Store               workflow/store.py
--   Examples                     a small policy with scenarios, findings, a benchmark and runs
--
-- A call that may raise returns `Outcome`. A pydantic validator is a function into `Outcome Unit`;
-- validators of records that are validated again on every construction are called where the code
-- constructs or validates them. Integers that pydantic bounds below by 0 are native naturals, other
-- integers are `ℤ`. Sets and frozensets are lists with the tests of sets on them; sets that are only
-- iterated are tried in the order of the list. Time is a natural.
--
-- A critical section of the store, between two `await`s, is one function of the store. A state of the
-- interleaving model is a store with the mutations that have read their run and not yet written it;
-- each step is one critical section of some request.
--
-- Bounds: the search for cycles takes Python's recursion limit of 1000 as its fuel, and a policy has
-- at most 12 rules; the search never meets the limit. Money is at most 10,000,000 minor units and a
-- booking at most 365 days ahead. The matching of a benchmark takes one more than the number of findings
-- as fuel; each recursive call has visited one more finding.
--
-- The digests (SHA-256 over canonical JSON) are parameters: single functions, or a record of them where
-- several are used.
--
-- Not modelled: the digests themselves, the application of revisions, fuzzing,
-- the form of timestamps, the labels of a policy (review status, currency, schema
-- version), language models, the coordination of asynchronous tasks, the API and the
-- user interface.
mod Prelude
pub mod Domain
pub mod Evaluation
pub mod Workflow
pub mod Examples
