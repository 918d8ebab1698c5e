-- ===== src/Examples/Suites.antt =====
-- A request with the sample policy, three invariants and one scenario.
use policyfuzz.Prelude.{String, ◌≡◌, refl, [], ◌∷◌, none, some, ok, string_eq, decide}
use policyfuzz.Domain.Vocabulary.{EffectDimension, PredicateOperator-discrete, Severity}
use policyfuzz.Domain.Predicate.{typed_predicate}
use policyfuzz.Domain.Rule.{amount, validate_effect_value}
use policyfuzz.Domain.Intent.{
  Assertion, TargetKind, AssertionOperator, AssertionOrigin, Invariant, PolicyContract,
  typed_assertion, independent_assertion, assertion_matches_invariant, unique_invariants,
}
use policyfuzz.Domain.Scenario.{ScenarioSuite, unique_scenarios}
use policyfuzz.Evaluation.Reports.{EvaluationReport}
use policyfuzz.Evaluation.Suites.{
  EvaluatePolicyRequest, Digests, validate_contract, validate_evaluation_anchors, evaluate,
}
use policyfuzz.Evaluation.Suites.Coverage.{IsCovered, evaluate-IsCovered}
use policyfuzz.Examples.Accepted.{rules_ok}
use policyfuzz.Examples.Samples.{digest, meal, policy, scenario}

abbrev capped : String → String → Assertion
capped assertion_id invariant_id = record {
  assertion_id = assertion_id;
  target_kind = TargetKind.effect_value;
  dimension = EffectDimension.claim_cap_minor;
  operator = AssertionOperator.lte;
  expected_value = amount 9_000;
  origin = AssertionOrigin.session_confirmed;
  source_invariant_id = some invariant_id;
  gold_label_id = none;
  mechanical_relation_id = none;
}

abbrev capped_meals : String → String → Invariant
capped_meals invariant_id assertion_id = record {
  invariant_id = invariant_id;
  description = "Meals are capped.";
  when = meal ∷ [];
  assertion = capped assertion_id invariant_id;
  severity = Severity.high;
}

abbrev contract : PolicyContract
contract = record {
  contract_id = "k2";
  required_dimensions = EffectDimension.claim_cap_minor ∷ [];
  invariants = capped_meals "i1" "b1" ∷ capped_meals "i2" "b2" ∷ capped_meals "i3" "b3" ∷ [];
}

abbrev suite : ScenarioSuite
suite = record {
  suite_id = "u1";
  content_sha256 = "u";
  seed = 0;
  document_sha256 = digest;
  policy_contract_sha256 = "k";
  rule_set_sha256 = "r";
  engine_version = "1.0.0";
  scenarios = scenario ∷ [];
  statistics = record {
    generated_count = 1;
    rejected_count = 0;
    duplicate_count = 0;
    rejections = [];
  };
}

abbrev request : EvaluatePolicyRequest
request = record {
  policy = policy;
  contract = contract;
  suite = suite;
  inputs = record {
    policy_sha256 = "p";
    contract_sha256 = "k";
    suite_sha256 = "u";
    engine_sha256 = "e";
    run_manifest_sha256 = "m";
  };
  engine_version = "1.0.0";
}

abbrev digests : Digests
digests = record {
  policy_hash = λ p. "p";
  contract_hash = λ c. "k";
  suite_hash = λ s. "u";
  trace_hash = λ t. t.scenario_id;
  provenance_hash = λ p. "00";
  rule_set_hash = λ p. "r";
  report_hash = λ i rs c v. v;
  report_name = λ d. d;
}

contract_ok : validate_contract contract ≡ ok tt
unfolding validate_contract typed_predicate typed_assertion independent_assertion
    assertion_matches_invariant unique_invariants validate_effect_value PredicateOperator-discrete
    decide
contract_ok = refl

anchors_ok : validate_evaluation_anchors digests request ≡ ok tt
unfolding validate_evaluation_anchors
anchors_ok = refl

suite_ok : unique_scenarios suite ≡ ok tt
unfolding unique_scenarios
suite_ok = refl

evaluate_example :
    (report : EvaluationReport) × (evaluate digests request ≡ ok report)
    × IsCovered digests request report
evaluate_example = evaluate-IsCovered digests request rules_ok contract_ok anchors_ok suite_ok
