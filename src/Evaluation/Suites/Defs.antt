-- ===== src/Evaluation/Suites/Defs.antt =====
-- `validate_evaluation_anchors` and `DeterministicEvaluationEngine.evaluate`. The digests of the
-- inputs are parameters, as one record of functions.
use policyfuzz.Prelude.{
  String, Bool, true, false, not, ◌&&◌, ◌||◌, List, [], ◌∷◌, map, each_ok, map_ok, sorted_by, ◌==◌,
  string_eq, Outcome, ok, raised, stop_iteration, ◌>>=◌, ◌>>◌, require, if◌then◌else◌,
}
use policyfuzz.Domain.Predicate.{typed_predicate}
use policyfuzz.Domain.Rule.{RuleProvenance}
use policyfuzz.Domain.Policy.{PolicyIr, PolicyKind}
use policyfuzz.Domain.Intent.{
  Invariant, PolicyContract, typed_assertion, independent_assertion, assertion_matches_invariant,
  unique_invariants,
}
use policyfuzz.Domain.Scenario.{Scenario, ScenarioSuite}
use policyfuzz.Domain.Coverage.{CoverageSnapshot, bounded_counts, branch_coordinates}
use policyfuzz.Domain.Finding.{InputHashes}
use policyfuzz.Evaluation.Engine.{
  EvaluationTrace, ScenarioEvaluation, Verdict, evaluate_scenario, matched_invariants,
}
use policyfuzz.Evaluation.RuleValidation.{validate_rule_set}
use policyfuzz.Evaluation.Reports.{EvaluationReport, unique_results}
use policyfuzz.Evaluation.Suites.Evidence.{
  Evidence, rule_key, invariant_key, branch_of, note_all, snapshot,
}

pub record EvaluatePolicyRequest : Type 0 where
  pub policy : PolicyIr
  pub contract : PolicyContract
  pub suite : ScenarioSuite
  pub inputs : InputHashes
  pub engine_version : String

-- `payload_hash` of each kind of value, `canonical_sha256` of a provenance, of the semantic
-- projection of a policy and of the contents of a report.
pub record Digests : Type 0 where
  pub policy_hash : PolicyIr → String
  pub contract_hash : PolicyContract → String
  pub suite_hash : ScenarioSuite → String
  pub trace_hash : EvaluationTrace → String
  pub provenance_hash : RuleProvenance → String
  pub rule_set_hash : PolicyIr → String
  pub report_hash : InputHashes → List ScenarioEvaluation → CoverageSnapshot → String → String
  pub report_name : String → String

abbrev engine_version : String
engine_version = "1.0.0"

abbrev is_baseline : PolicyKind → Bool
is_baseline PolicyKind.compiled_baseline = true
is_baseline PolicyKind.structured_revision = false

-- The validators of the contract and of its parts: `PolicyContract.model_validate`
abbrev pub validate_invariant : Invariant → Outcome (Unit {0})
validate_invariant i = do
  each_ok typed_predicate i.when
  typed_assertion i.assertion
  independent_assertion i.assertion
  assertion_matches_invariant i

unfoldable pub validate_contract : PolicyContract → Outcome (Unit {0})
validate_contract contract =
    each_ok validate_invariant contract.invariants >> unique_invariants contract

-- `next(s for s in suite.scenarios if s.scenario_id == scenario_id)`
unfoldable pub find_scenario : String → List Scenario → Outcome Scenario
find_scenario id [] = raised stop_iteration
find_scenario id (s ∷ ss) = if s.scenario_id == id then ok s else find_scenario id ss

abbrev pub is_error : Verdict → Bool
is_error Verdict.error = true
is_error _ = false

module _ (digests : Digests) where
  unfoldable pub validate_evaluation_anchors : EvaluatePolicyRequest → Outcome (Unit {0})
  validate_evaluation_anchors request =
      let suite = request.suite in
      let contract_hash = digests.contract_hash request.contract in
      let suite_hash = digests.suite_hash suite in
      require
        (request.inputs.policy_sha256 == digests.policy_hash request.policy
          && (request.inputs.contract_sha256 == contract_hash
              && ((request.inputs.suite_sha256 == suite_hash && suite_hash == suite.content_sha256)
                  && (suite.document_sha256 == request.policy.document_sha256
                      && (suite.policy_contract_sha256 == contract_hash
                          && ((request.engine_version == suite.engine_version
                                && suite.engine_version == engine_version)
                              && (not (is_baseline request.policy.kind)
                                  || suite.rule_set_sha256
                                    == digests.rule_set_hash request.policy)))))))
        "HASH_MISMATCH: evaluation anchors or engine version"

  -- The keys of the invariants that match in the scenario of a result
  unfoldable pub invariant_evidence :
      EvaluatePolicyRequest → ScenarioEvaluation → Evidence → Outcome Evidence
  unfolding find_scenario
  invariant_evidence request result e = do
    scenario ← find_scenario result.scenario_id request.suite.scenarios
    invariants ← matched_invariants request.contract.invariants scenario.facts
    ok (note_all result.scenario_id (map (λ i. invariant_key i.invariant_id) invariants) e)

  abbrev pub trace_evidence : ScenarioEvaluation → Evidence → Evidence
  trace_evidence result e =
      note_all result.scenario_id (map branch_of result.trace.predicate_results)
        (note_all result.scenario_id (map rule_key result.trace.fired_rule_ids) e)

  -- `for result in results`
  unfoldable pub collect :
      EvaluatePolicyRequest → List ScenarioEvaluation → Evidence → Outcome Evidence
  unfolding invariant_evidence
  collect request [] e = ok e
  collect request (r ∷ rs) e = do
    with_invariants ←
        (if is_error r.verdict
          then ok (trace_evidence r e)
          else invariant_evidence request r (trace_evidence r e))
    collect request rs with_invariants

  abbrev pub report_of :
      EvaluatePolicyRequest → List ScenarioEvaluation → CoverageSnapshot → EvaluationReport
  report_of request results coverage = record {
    report_id =
        digests.report_name (digests.report_hash request.inputs results coverage engine_version);
    inputs = request.inputs;
    engine_version = engine_version;
    results = results;
    coverage = coverage;
  }

  -- `DeterministicEvaluationEngine.evaluate`. The results were validated when they were built, and
  -- are the same when the report validates them again.
  unfoldable pub evaluate : EvaluatePolicyRequest → Outcome EvaluationReport
  unfolding validate_contract validate_evaluation_anchors collect
  evaluate request = do
    validate_rule_set request.policy
    validate_contract request.contract
    validate_evaluation_anchors request
    results ←
        map_ok
          (evaluate_scenario digests.provenance_hash digests.trace_hash request.policy
            request.contract)
          (sorted_by (λ s. s.scenario_id) request.suite.scenarios)
    evidence ← collect request results []
    let coverage = snapshot request.policy.rules request.contract.invariants evidence
    each_ok branch_coordinates coverage.evidence
    bounded_counts coverage
    unique_results (report_of request results coverage)
    ok (report_of request results coverage)
