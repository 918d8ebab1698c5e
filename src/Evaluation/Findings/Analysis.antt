-- ===== src/Evaluation/Findings/Analysis.antt =====
-- `DeterministicFindingAnalyzer.analyze`.
use policyfuzz.Prelude.{
  String, Bool, not, ◌&&◌, ◌||◌, List, [], ◌∷◌, map, keep, any, elem, sorted_by, ◌==◌, string_eq,
  Option, none, some, Outcome, ok, raised, value_error, key_error, stop_iteration, ◌>>=◌, ◌>>◌,
  require, each_ok, fold_ok, if◌then◌else◌,
}
use policyfuzz.Domain.Vocabulary.{
  EffectDimension, dimension_eq, EffectStatus, effect_status_eq, AssertionStatus,
  assertion_status_eq,
}
use policyfuzz.Domain.Rule.{supplies, UnsupportedClause}
use policyfuzz.Domain.Policy.{PolicyIr, rule_ids}
use policyfuzz.Domain.Intent.{Assertion, PolicyContract}
use policyfuzz.Domain.Scenario.{Scenario, ScenarioSuite}
use policyfuzz.Domain.Finding.{
  FindingType, FindingReviewStatus, Finding, FindingReport, supported_evidence, same_set,
}
use policyfuzz.Evaluation.Resolution.{DimensionResult}
use policyfuzz.Evaluation.Assertions.{AssertionResult}
use policyfuzz.Evaluation.Engine.{ScenarioEvaluation, scenario_assertions, find_assertion}
use policyfuzz.Evaluation.Reports.{EvaluationReport}
use policyfuzz.Evaluation.Suites.{Digests, is_error}
use policyfuzz.Evaluation.Findings.Groups.{Group, FindingDigests, Cause, add}

pub record AnalyzeFindingsRequest : Type 0 where
  pub policy : PolicyIr
  pub contract : PolicyContract
  pub suite : ScenarioSuite
  pub evaluation : EvaluationReport

-- The dictionary `groups` and the set `invariant_gap_dimensions`
pub record Progress : Type 0 where
  pub groups : List (String × Group)
  pub gap_dimensions : List EffectDimension

-- `scenarios[scenario_id]`; the identifiers of a suite are unique.
unfoldable pub scenario_at : String → List Scenario → Outcome Scenario
scenario_at id [] = raised key_error
scenario_at id (s ∷ ss) = if s.scenario_id == id then ok s else scenario_at id ss

-- `next(d for d in result.trace.resolved_effects if d.dimension == dimension)`
unfoldable pub effect_of : EffectDimension → List DimensionResult → Outcome DimensionResult
effect_of d [] = raised stop_iteration
effect_of d (r ∷ rs) = if r.dimension == d then ok r else effect_of d rs

-- `next(c for c in policy.unsupported_clauses if c.clause_id == clause_id)`
unfoldable pub clause_at : String → List UnsupportedClause → Outcome UnsupportedClause
clause_at id [] = raised stop_iteration
clause_at id (c ∷ cs) = if c.clause_id == id then ok c else clause_at id cs

abbrev pub suppliers : PolicyIr → EffectDimension → List String
suppliers policy d = rule_ids (keep (λ r. supplies r d) policy.rules)

-- The failed invariant, or the gap in a dimension that no rule supplies
abbrev pub breaches : PolicyIr → AssertionResult → DimensionResult → Bool
breaches policy outcome effect =
    outcome.status == AssertionStatus.fail
    || (effect.status == EffectStatus.gap
        && not (any (λ r. supplies r effect.dimension) policy.rules))

abbrev pub breach : PolicyIr → EffectDimension → String → Cause
breach policy d invariant_id = record {
  finding_type = FindingType.intent_breach;
  dimension = d;
  rule_ids = suppliers policy d;
  invariant_id = some invariant_id;
  assertion_id = none;
  clause = none;
}

abbrev pub of_rule_ids : FindingType → EffectDimension → List String → Cause
of_rule_ids kind d ids = record {
  finding_type = kind;
  dimension = d;
  rule_ids = ids;
  invariant_id = none;
  assertion_id = none;
  clause = none;
}

abbrev pub open_clause : EffectDimension → UnsupportedClause → Cause
open_clause d c = record {
  finding_type = FindingType.unsupported_clause;
  dimension = d;
  rule_ids = [];
  invariant_id = none;
  assertion_id = none;
  clause = some c;
}

module _ (digests : FindingDigests) (policy : PolicyIr) (contract : PolicyContract) where
  abbrev pub added :
      ScenarioEvaluation → Cause → List (String × Group) → Outcome (List (String × Group))
  added r c groups = add digests policy.rules contract.invariants r c groups

  abbrev pub note_breach :
      ScenarioEvaluation
      → AssertionResult
      → Assertion
      → DimensionResult
      → Option String
      → Progress
      → Outcome Progress
  note_breach r outcome assertion effect none p = ok p
  note_breach r outcome assertion effect (some invariant_id) p =
      if breaches policy outcome effect
      then (added r (breach policy assertion.dimension invariant_id) p.groups >>= λ groups.
          ok (record {
            groups = groups;
            gap_dimensions =
                if elem contract.required_dimensions assertion.dimension
                then p.gap_dimensions
                else assertion.dimension ∷ p.gap_dimensions;
          }))
      else ok p

  abbrev pub known_assertion : Option Assertion → Outcome Assertion
  known_assertion none = raised (value_error "unknown assertion result")
  known_assertion (some a) = ok a

  -- `for outcome in result.assertion_results`
  unfoldable pub check_outcome :
      ScenarioEvaluation → List Assertion → Progress → AssertionResult → Outcome Progress
  unfolding effect_of
  check_outcome r assertions p outcome = do
    assertion ← known_assertion (find_assertion outcome.assertion_id assertions)
    effect ← effect_of assertion.dimension r.trace.resolved_effects
    note_breach r outcome assertion effect assertion.source_invariant_id p

  abbrev pub survivors : DimensionResult → List String
  survivors effect =
      keep (λ id. not (elem effect.overridden_rule_ids id)) effect.applicable_rule_ids

  abbrev pub structural :
      ScenarioEvaluation → DimensionResult → Progress → Outcome (List (String × Group))
  structural r effect p =
      if effect.status == EffectStatus.gap && not (elem p.gap_dimensions effect.dimension)
      then added r
          (of_rule_ids FindingType.structural_gap effect.dimension
            (suppliers policy effect.dimension))
          p.groups
      else if effect.status == EffectStatus.conflict
      then added r (of_rule_ids FindingType.conflict effect.dimension (survivors effect)) p.groups
      else ok p.groups

  abbrev pub add_clause :
      ScenarioEvaluation
      → EffectDimension
      → List (String × Group)
      → String
      → Outcome (List (String × Group))
  add_clause r d groups id =
      clause_at id policy.unsupported_clauses >>= λ c. added r (open_clause d c) groups

  -- `for dimension in result.trace.resolved_effects`
  unfoldable pub check_effect : ScenarioEvaluation → Progress → DimensionResult → Outcome Progress
  unfolding clause_at
  check_effect r p effect = do
    with_structural ← structural r effect p
    with_clauses ←
        fold_ok (add_clause r effect.dimension) effect.unsupported_clause_ids with_structural
    ok (record p { groups = with_clauses })

  abbrev pub start : List (String × Group) → Progress
  start groups = record { groups = groups; gap_dimensions = [] }

  -- `for result in ...`, past the test for an error
  unfoldable pub check_result :
      Scenario → ScenarioEvaluation → List (String × Group) → Outcome (List (String × Group))
  unfolding check_outcome check_effect
  check_result scenario r groups = do
    assertions ← scenario_assertions contract scenario
    outcomes ← fold_ok (check_outcome r assertions) r.assertion_results (start groups)
    effects ← fold_ok (check_effect r) r.trace.resolved_effects outcomes
    ok effects.groups

  unfoldable pub analyze_result :
      List Scenario → List (String × Group) → ScenarioEvaluation → Outcome (List (String × Group))
  unfolding scenario_at check_result
  analyze_result scenarios groups r = do
    scenario ← scenario_at r.scenario_id scenarios
    (if is_error r.verdict then ok groups else check_result scenario r groups)

  -- `groups` after all results
  unfoldable pub collect_groups :
      List Scenario → List ScenarioEvaluation → Outcome (List (String × Group))
  unfolding analyze_result
  collect_groups scenarios results =
      fold_ok (analyze_result scenarios) (sorted_by (λ r. r.scenario_id) results) []

-- `Finding(**group, ...)`
unfoldable pub finding_of : Group → Finding
finding_of g = record {
  finding_id = g.finding_id;
  fingerprint_sha256 = g.fingerprint_sha256;
  finding_type = g.finding_type;
  evidence_level = g.evidence_level;
  scenario_ids = map (λ w. w.0) (sorted_by (λ w. w.0) g.witnesses);
  rule_ids = g.rule_ids;
  invariant_id = g.invariant_id;
  assertion_id = g.assertion_id;
  dimension = g.dimension;
  traces = map (λ w. w.1) (sorted_by (λ w. w.0) g.witnesses);
  citations = map (λ c. c.1) (sorted_by (λ c. c.0) g.citations);
  review_status = FindingReviewStatus.pending;
  severity = g.severity;
  severity_origin = g.severity_origin;
}

abbrev pub findings_of : List (String × Group) → List Finding
findings_of groups = map (λ p. finding_of p.1) (sorted_by (λ p. p.0) groups)

unfoldable pub analyze : Digests → FindingDigests → AnalyzeFindingsRequest → Outcome FindingReport
unfolding collect_groups finding_of
analyze digests finding_digests request = do
  let inputs = request.evaluation.inputs
  require
      (inputs.policy_sha256 == digests.policy_hash request.policy
        && (inputs.contract_sha256 == digests.contract_hash request.contract
            && inputs.suite_sha256 == digests.suite_hash request.suite))
      "HASH_MISMATCH: finding input anchors"
  require
      (same_set (map (λ s. s.scenario_id) request.suite.scenarios)
        (map (λ r. r.scenario_id) request.evaluation.results))
      "finding evaluation scenario set mismatch"
  groups ←
      collect_groups finding_digests request.policy request.contract request.suite.scenarios
        request.evaluation.results
  each_ok supported_evidence (findings_of groups)
  ok (record {
    report_id = finding_digests.report_name (findings_of groups);
    inputs = inputs;
    findings = findings_of groups;
  })
