-- ===== src/Examples/Findings.antt =====
-- The findings of a result with a gap and a conflict.
use policyfuzz.Prelude.{
  String, ◌≡◌, refl, false, List, [], ◌∷◌, map, length, has_duplicates, string_eq, none, Outcome,
  ok, raised, each_ok, decide,
}
use policyfuzz.Domain.Vocabulary.{
  EffectDimension, EffectDimension-discrete, EffectStatus, EffectStatus-discrete,
  PredicateOperator-discrete,
}
use policyfuzz.Domain.Rule.{EffectValue, amount}
use policyfuzz.Domain.Policy.{find_rule}
use policyfuzz.Domain.Finding.{supported_evidence}
use policyfuzz.Evaluation.Resolution.{DimensionResult}
use policyfuzz.Evaluation.Engine.{ScenarioEvaluation, Verdict, scenario_assertions}
use policyfuzz.Evaluation.Findings.{
  Group, FindingDigests, FingerprintPayload, of_rules, collect_groups, findings_of, check_outcome,
  check_effect, check_result, analyze_result, scenario_at, effect_of, clause_at, add, value_at,
  set_at, severity_at, fingerprint_payload,
}
use policyfuzz.Evaluation.Findings.Supported.{findings_of-Supported}
use policyfuzz.Examples.Samples.{policy, contract, scenario}

abbrev effect : EffectDimension → EffectStatus → List EffectValue → List String → DimensionResult
effect d status values ids = record {
  dimension = d;
  status = status;
  value = none;
  conflicting_values = values;
  applicable_rule_ids = ids;
  overridden_rule_ids = [];
  unsupported_clause_ids = [];
}

abbrev result : ScenarioEvaluation
result = record {
  scenario_id = "s1";
  trace = record {
    scenario_id = "s1";
    fired_rule_ids = [];
    predicate_results = [];
    resolved_effects =
        effect EffectDimension.receipt_requirement EffectStatus.gap [] []
        ∷ effect EffectDimension.claim_cap_minor EffectStatus.conflict
            (amount 5_000 ∷ amount 8_000 ∷ []) ("meal_cap" ∷ "senior_cap" ∷ [])
        ∷ [];
    compliance_values = [];
    source_citations = [];
    trace_sha256 = "t1";
  };
  assertion_results = [];
  verdict = Verdict.unscored;
  failed_input = false;
}

abbrev payload_name : FingerprintPayload → String
payload_name (of_rules t EffectDimension.receipt_requirement ids) = "f1"
payload_name (of_rules t EffectDimension.claim_cap_minor ids) = "f2"
payload_name _ = "f3"

abbrev digests : FindingDigests
digests = record {
  fingerprint_hash = payload_name;
  span_hash = λ s. s.quote;
  finding_name = λ s. s;
  report_name = λ fs. "report";
}

abbrev groups_of : Outcome (List (String × Group)) → List (String × Group)
groups_of (ok m) = m
groups_of (raised x) = []

groups : List (String × Group)
unfolding collect_groups
groups = groups_of (collect_groups digests policy contract (scenario ∷ []) (result ∷ []))

collected : collect_groups digests policy contract (scenario ∷ []) (result ∷ []) ≡ ok groups
unfolding groups collect_groups analyze_result scenario_at check_result scenario_assertions
    check_outcome check_effect effect_of clause_at add value_at set_at severity_at
    fingerprint_payload find_rule EffectStatus-discrete EffectDimension-discrete
    PredicateOperator-discrete decide
collected = refl

two_groups : length groups ≡ 2
unfolding groups collect_groups analyze_result scenario_at check_result scenario_assertions
    check_outcome check_effect effect_of clause_at add value_at set_at severity_at
    fingerprint_payload find_rule EffectStatus-discrete EffectDimension-discrete
    PredicateOperator-discrete decide
two_groups = refl

findings_example :
    (each_ok supported_evidence (findings_of groups) ≡ ok tt)
    × (has_duplicates (map (λ f. f.fingerprint_sha256) (findings_of groups)) ≡ false)
findings_example =
    findings_of-Supported digests policy contract (scenario ∷ []) (result ∷ []) groups collected
