-- ===== src/Examples/Benchmarks.antt =====
-- A benchmark of two defects, of which one is found, and two findings, of which one matches.
use policyfuzz.Prelude.{
  true, raised, value_error, ◌⊎◌, String, ◌≡◌, refl, false, List, [], ◌∷◌, any, keep, length,
  has_duplicates, string_eq, ok, none, some, decide,
}
use policyfuzz.Domain.Vocabulary.{EffectDimension, EffectDimension-discrete, Severity}
use policyfuzz.Domain.Coverage.{CoverageStatus}
use policyfuzz.Domain.Scenario.{ScenarioPartition}
use policyfuzz.Domain.Finding.{
  InputHashes, same_inputs, FindingType, FindingType-discrete, EvidenceLevel, FindingReviewStatus,
  Finding,
}
use policyfuzz.Evaluation.Engine.{EvaluationTrace, ScenarioEvaluation, Verdict}
use policyfuzz.Evaluation.Metrics.{percent}
use policyfuzz.Evaluation.Benchmark.{
  BenchmarkDefect, ScoreBenchmarkRequest, BenchmarkScore, matches, finding_targets, is_scored,
  fingerprints, maximum_matching, assign_each, assign, scan, nth, owner, validate_results,
  validate_defects, validate_findings, validate_evidence, check_defect, check_finding, find_result,
  score_benchmark,
}
use policyfuzz.Evaluation.Benchmark.Matching.{maximum_matching-exact}
use policyfuzz.Evaluation.Benchmark.Scores.{IsScore, score_benchmark-IsScore}
use policyfuzz.Evaluation.Tallies.{
  MetricsRequest, MetricsReport, compute_metrics, effect_states, effect_counts,
  effect_counts-effect_states,
}
use policyfuzz.Evaluation.Tallies.Counts.{IsTally, compute_metrics-IsTally}
use policyfuzz.Examples.Samples.{scenario}

abbrev found_gap : Finding
found_gap = record {
  finding_id = "finding-f1";
  fingerprint_sha256 = "f1";
  finding_type = FindingType.structural_gap;
  evidence_level = EvidenceLevel.mechanically_reproduced;
  scenario_ids = "s1" ∷ [];
  rule_ids = "meal_cap" ∷ [];
  invariant_id = none;
  assertion_id = none;
  dimension = EffectDimension.claim_cap_minor;
  traces = (record { scenario_id = "s1"; trace_sha256 = "t1" }) ∷ [];
  citations = [];
  review_status = FindingReviewStatus.pending;
  severity = none;
  severity_origin = none;
}

abbrev found_conflict : Finding
found_conflict = record found_gap {
  finding_id = "finding-f2";
  fingerprint_sha256 = "f2";
  finding_type = FindingType.conflict;
}

abbrev findings : List Finding
findings = found_conflict ∷ found_gap ∷ []

abbrev gap : BenchmarkDefect
gap = record {
  defect_id = "d1";
  finding_type = FindingType.structural_gap;
  dimension = EffectDimension.claim_cap_minor;
  target_ids = "meal_cap" ∷ [];
  severity = Severity.high;
  source_spans = [];
  semantic_signature_sha256 = none;
  permitted_witness_ids = "s1" ∷ [];
  expected_finding_fingerprint_sha256 = some "f1";
  partition = ScenarioPartition.visible;
  unsupported_clause = false;
}

abbrev missed : BenchmarkDefect
missed = record gap { defect_id = "d2"; expected_finding_fingerprint_sha256 = some "f3" }

abbrev defects : List BenchmarkDefect
defects = gap ∷ missed ∷ []

unique : has_duplicates (fingerprints findings) ≡ false
unique = refl

matching_example :
    maximum_matching defects findings ≡ length (keep (λ f. any (λ d. matches d f) defects) findings)
matching_example = maximum_matching-exact defects findings unique

abbrev inputs : InputHashes
inputs = record {
  policy_sha256 = "p";
  contract_sha256 = "c";
  suite_sha256 = "s";
  engine_sha256 = "e";
  run_manifest_sha256 = "r";
}

abbrev evaluated : ScenarioEvaluation
evaluated = record {
  scenario_id = "s1";
  trace = record {
    scenario_id = "s1";
    fired_rule_ids = [];
    predicate_results = [];
    resolved_effects = [];
    compliance_values = [];
    source_citations = [];
    trace_sha256 = "t1";
  };
  assertion_results = [];
  verdict = Verdict.unscored;
  failed_input = false;
}

abbrev request : ScoreBenchmarkRequest
request = record {
  manifest = record {
    benchmark_id = "b1";
    document_sha256 = "d";
    policy_contract_sha256 = "c";
    engine_version = "1.0.0";
    sealed_at = "2026-01-01T00:00:00Z";
    seal_sha256 = "z";
    defects = defects;
    gold_scenarios = scenario ∷ [];
    required_dimensions = EffectDimension.claim_cap_minor ∷ [];
  };
  findings = record { report_id = "findings-1"; inputs = inputs; findings = findings };
  evaluation = record {
    report_id = "evaluation-1";
    inputs = inputs;
    engine_version = "1.0.0";
    results = evaluated ∷ [];
    coverage = record {
      total_rules = 0;
      covered_rules = 0;
      total_invariants = 0;
      covered_invariants = 0;
      total_predicate_branches = 0;
      covered_predicate_branches = 0;
      evidence = [];
      missing_rule_ids = [];
      missing_invariant_ids = [];
      targeted_cycles = 0;
      status = CoverageStatus.pending;
    };
  };
}

abbrev trace_hash : EvaluationTrace → String
trace_hash t = "t1"

abbrev same_text : String → String
same_text s = s

abbrev score : BenchmarkScore
score = record {
  benchmark_id = "b1";
  inputs = inputs;
  true_positives = 1;
  false_positives = 1;
  false_negatives = 1;
  precision_percent = some 50;
  recall_percent = some 50;
  f1_percent = some 50;
}

scored : score_benchmark trace_hash same_text request ≡ ok score
unfolding score_benchmark validate_evidence validate_results validate_defects validate_findings
    check_defect check_finding find_result maximum_matching assign_each assign scan nth owner
    matches finding_targets is_scored percent EffectDimension-discrete FindingType-discrete decide
scored = refl

score_example : IsScore request score
score_example = score_benchmark-IsScore trace_hash same_text request score scored

abbrev metrics_request : MetricsRequest
metrics_request = record { evaluation = request.evaluation; findings = request.findings }

metrics_example :
    ((same_inputs inputs inputs ≡ false)
      × (compute_metrics metrics_request
          ≡ raised (value_error "HASH_MISMATCH: metric finding anchors")))
    ⊎ ((same_inputs inputs inputs ≡ true)
        × ((m : MetricsReport) × (compute_metrics metrics_request ≡ ok m)
            × IsTally metrics_request m))
metrics_example = compute_metrics-IsTally metrics_request

counts_example : effect_counts request.evaluation ≡ effect_states request.evaluation.results
counts_example = effect_counts-effect_states request.evaluation
