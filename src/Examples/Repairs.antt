-- ===== src/Examples/Repairs.antt =====
-- A gap that a revision fills.
use policyfuzz.Prelude.{
  String, ◌≡◌, refl, true, false, List, [], ◌∷◌, All, none, some, ok, string_eq, decide,
}
use policyfuzz.Domain.Vocabulary.{
  EffectDimension, EffectDimension-discrete, EffectStatus, EffectStatus-discrete, AssertionStatus,
  AssertionStatus-discrete, PredicateOperator-discrete,
}
use policyfuzz.Domain.Rule.{amount}
use policyfuzz.Domain.Scenario.{Scenario}
use policyfuzz.Domain.Finding.{
  FindingType, EvidenceLevel, FindingReviewStatus, Finding, is_candidate,
}
use policyfuzz.Evaluation.Engine.{ScenarioEvaluation, Verdict, scenario_assertions}
use policyfuzz.Evaluation.Findings.{effect_of, value_at}
use policyfuzz.Evaluation.Repairs.{
  status_of, witness_fixed, target_witnesses_fixed, IsRepaired, target_witnesses_fixed-IsRepaired,
}
use policyfuzz.Examples.Samples.{contract, scenario}

abbrev finding : Finding
finding = record {
  finding_id = "finding-f1";
  fingerprint_sha256 = "f1";
  finding_type = FindingType.structural_gap;
  evidence_level = EvidenceLevel.mechanically_reproduced;
  scenario_ids = "s1" ∷ [];
  rule_ids = "meal_cap" ∷ [];
  invariant_id = none;
  assertion_id = none;
  dimension = EffectDimension.claim_cap_minor;
  traces = (record { scenario_id = "s1"; trace_sha256 = "t1" }) ∷ [];
  citations = [];
  review_status = FindingReviewStatus.accepted;
  severity = none;
  severity_origin = none;
}

abbrev open_gap : ScenarioEvaluation
open_gap = record {
  scenario_id = "s1";
  trace = record {
    scenario_id = "s1";
    fired_rule_ids = [];
    predicate_results = [];
    resolved_effects =
        record {
          dimension = EffectDimension.claim_cap_minor;
          status = EffectStatus.gap;
          value = none;
          conflicting_values = [];
          applicable_rule_ids = [];
          overridden_rule_ids = [];
          unsupported_clause_ids = [];
        }
        ∷ [];
    compliance_values = [];
    source_citations = [];
    trace_sha256 = "t1";
  };
  assertion_results =
      (record { assertion_id = "a1"; status = AssertionStatus.inconclusive; actual_value = none })
      ∷ [];
  verdict = Verdict.inconclusive;
  failed_input = false;
}

abbrev filled : ScenarioEvaluation
filled = record {
  scenario_id = "s1";
  trace = record {
    scenario_id = "s1";
    fired_rule_ids = "meal_cap" ∷ [];
    predicate_results = [];
    resolved_effects =
        record {
          dimension = EffectDimension.claim_cap_minor;
          status = EffectStatus.value;
          value = some (amount 8_000);
          conflicting_values = [];
          applicable_rule_ids = "meal_cap" ∷ [];
          overridden_rule_ids = [];
          unsupported_clause_ids = [];
        }
        ∷ [];
    compliance_values = [];
    source_citations = [];
    trace_sha256 = "t2";
  };
  assertion_results =
      (record {
        assertion_id = "a1";
        status = AssertionStatus.pass;
        actual_value = some (amount 8_000);
      })
      ∷ [];
  verdict = Verdict.pass;
  failed_input = false;
}

abbrev before : List (String × ScenarioEvaluation)
before = ("s1", open_gap) ∷ []

abbrev after : List (String × ScenarioEvaluation)
after = ("s1", filled) ∷ []

abbrev scenarios : List (String × Scenario)
scenarios = ("s1", scenario) ∷ []

fixed : target_witnesses_fixed finding before after scenarios contract ≡ ok true
unfolding target_witnesses_fixed witness_fixed value_at effect_of status_of scenario_assertions
    EffectDimension-discrete EffectStatus-discrete AssertionStatus-discrete
    PredicateOperator-discrete decide
fixed = refl

repaired_example :
    (is_candidate finding.evidence_level ≡ false)
    × All (IsRepaired finding before after scenarios contract) finding.scenario_ids
repaired_example = target_witnesses_fixed-IsRepaired finding before after scenarios contract fixed
