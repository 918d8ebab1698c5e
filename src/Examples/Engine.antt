-- ===== src/Examples/Engine.antt =====
-- The theorems on evaluation and on the search for cycles at the sample scenario.
use policyfuzz.Prelude.{
  String, ◌≡◌, ◌↔◌, ◌⊎◌, inl, refl, true, false, List, [], ◌∷◌, All, elem, is_empty, arith, Outcome,
  ok, raised, value_error, string_eq, decide, some,
}
use policyfuzz.Domain.Vocabulary.{
  EffectDimension, EffectDimension-discrete, PredicateOperator-discrete, EffectStatus,
  EffectStatus-discrete, AssertionStatus, AssertionStatus-discrete,
}
use policyfuzz.Domain.Predicate.{typed_predicate}
use policyfuzz.Domain.Facts.{validate_facts}
use policyfuzz.Domain.Rule.{RuleProvenance, amount, validate_effect_value}
use policyfuzz.Domain.Scenario.{independent_assertions, ScenarioOrigin-discrete}
use policyfuzz.Domain.Policy.{graph, graph-closed, rule_ids}
use policyfuzz.Domain.Graph.{visit_all, visit_all-decides, Leads, HasCycle}
use policyfuzz.Evaluation.Predicates.{evaluate_predicate, evaluate_conditions, rule_matches}
use policyfuzz.Evaluation.Resolution.{DimensionResult, typed_resolution, resolve_dimension}
use policyfuzz.Evaluation.Compliance.{derive_compliance}
use policyfuzz.Evaluation.Assertions.{
  AssertionResult, evaluate_assertion, WasResolved, evaluate_assertion-WasResolved,
}
use policyfuzz.Evaluation.Engine.{
  Verdict, EvaluationTrace, ScenarioEvaluation, verdict_of, evaluate_scenario, failed,
  scenario_assertions, scenario_required_dimensions, scored_verdict_requires_assertion,
}
use policyfuzz.Domain.Intent.{typed_assertion, independent_assertion, AssertionOrigin-discrete}
use policyfuzz.Evaluation.Engine.Verdicts.{Passed, verdict_of-pass, scored_verdict-verdict_of}
use policyfuzz.Examples.Samples.{policy, contract, scenario, within_cap}
use policyfuzz.Examples.Rules.{policy-IsRuleSet}

visit_all_example :
    (((after : List String) × (visit_all
            (graph policy.rules)
            (value_error "cycle")
            3
            (rule_ids policy.rules)
          ≡ ok after))
      ↔ ((a : String) → elem (rule_ids policy.rules) a ≡ true → ¬ Leads (graph policy.rules) a a))
    × (((after : List String) × (visit_all
              (graph policy.rules)
              (value_error "cycle")
              3
              (rule_ids policy.rules)
            ≡ ok after))
        ⊎ ((visit_all (graph policy.rules) (value_error "cycle") 3 (rule_ids policy.rules)
              ≡ raised (value_error "cycle"))
            × HasCycle (graph policy.rules) (rule_ids policy.rules)))
visit_all_example =
    visit_all-decides (graph policy.rules) (value_error "cycle") (rule_ids policy.rules)
      (graph-closed policy.rules policy-IsRuleSet.targeted) 3 (omega arith)

abbrev resolved : DimensionResult
resolved = record {
  dimension = EffectDimension.claim_cap_minor;
  status = EffectStatus.value;
  value = some (amount 8_000);
  conflicting_values = [];
  applicable_rule_ids = "senior_cap" ∷ [];
  overridden_rule_ids = [];
  unsupported_clause_ids = [];
}

abbrev passed : AssertionResult
passed = record {
  assertion_id = "a1";
  status = AssertionStatus.pass;
  actual_value = some (amount 8_000);
}

scored : evaluate_assertion within_cap (resolved ∷ []) [] ≡ ok passed
unfolding evaluate_assertion EffectDimension-discrete decide
scored = refl

evaluate_assertion_example : WasResolved within_cap (resolved ∷ [])
evaluate_assertion_example =
    evaluate_assertion-WasResolved within_cap (resolved ∷ []) [] passed scored (inl refl)

verdict_example :
    (verdict_of (passed ∷ []) ≡ Verdict.pass)
    ↔ ((is_empty (passed ∷ []) ≡ false) × All Passed (passed ∷ []))
verdict_example = verdict_of-pass (passed ∷ [])

abbrev digest : RuleProvenance → String
digest p = "00"

abbrev trace_digest : EvaluationTrace → String
trace_digest t = t.scenario_id

abbrev result_of : Outcome ScenarioEvaluation → ScenarioEvaluation
result_of (ok e) = e
result_of (raised x) = failed digest trace_digest scenario

evaluation : ScenarioEvaluation
unfolding evaluate_scenario
evaluation = result_of (evaluate_scenario digest trace_digest policy contract scenario)

evaluated : evaluate_scenario digest trace_digest policy contract scenario ≡ ok evaluation
unfolding evaluation evaluate_scenario independent_assertions typed_assertion independent_assertion
    AssertionOrigin-discrete scored_verdict_requires_assertion ScenarioOrigin-discrete decide
    rule_matches evaluate_conditions evaluate_predicate typed_predicate validate_facts
    PredicateOperator-discrete scenario_assertions EffectDimension-discrete EffectStatus-discrete
    AssertionStatus-discrete resolve_dimension typed_resolution validate_effect_value
    derive_compliance evaluate_assertion scenario_required_dimensions verdict_of
evaluated = refl

evaluation-pass : evaluation.verdict ≡ Verdict.pass
unfolding evaluation evaluate_scenario independent_assertions typed_assertion independent_assertion
    AssertionOrigin-discrete scored_verdict_requires_assertion ScenarioOrigin-discrete decide
    rule_matches evaluate_conditions evaluate_predicate typed_predicate validate_facts
    PredicateOperator-discrete scenario_assertions EffectDimension-discrete EffectStatus-discrete
    AssertionStatus-discrete resolve_dimension typed_resolution validate_effect_value
    derive_compliance evaluate_assertion verdict_of scenario_required_dimensions
evaluation-pass = refl

named : evaluation.trace.scenario_id ≡ evaluation.scenario_id
unfolding evaluation evaluate_scenario independent_assertions typed_assertion independent_assertion
    AssertionOrigin-discrete scored_verdict_requires_assertion ScenarioOrigin-discrete decide
    rule_matches evaluate_conditions evaluate_predicate typed_predicate validate_facts
    PredicateOperator-discrete scenario_assertions EffectDimension-discrete EffectStatus-discrete
    AssertionStatus-discrete resolve_dimension typed_resolution validate_effect_value
    derive_compliance evaluate_assertion verdict_of scenario_required_dimensions
named = refl

computed : evaluation.verdict ≡ verdict_of evaluation.assertion_results
unfolding evaluation evaluate_scenario independent_assertions typed_assertion independent_assertion
    AssertionOrigin-discrete scored_verdict_requires_assertion ScenarioOrigin-discrete decide
    rule_matches evaluate_conditions evaluate_predicate typed_predicate validate_facts
    PredicateOperator-discrete scenario_assertions EffectDimension-discrete EffectStatus-discrete
    AssertionStatus-discrete resolve_dimension typed_resolution validate_effect_value
    derive_compliance evaluate_assertion verdict_of scenario_required_dimensions
computed = refl

validated_example : scored_verdict_requires_assertion evaluation ≡ ok tt
validated_example = scored_verdict-verdict_of evaluation named computed
