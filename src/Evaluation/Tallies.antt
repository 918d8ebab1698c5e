-- ===== src/Evaluation/Tallies.antt =====
-- backend/app/features/evaluation/metrics.py: `compute_metrics`, and `effect_counts` and
-- `compare_assertion_outcomes` of regression.py.
use policyfuzz.Prelude.{
  String, ℕ, ◌+◌, ◌≡◌, refl, Bool, List, [], ◌∷◌, ◌++◌, map, keep, length, distinct, ◌==◌,
  string_eq, Option, Outcome, ok, ◌>>◌, require, arith,
}
use policyfuzz.Domain.Vocabulary.{EffectStatus, effect_status_eq, AssertionStatus}
use policyfuzz.Domain.Coverage.{CoverageSnapshot}
use policyfuzz.Domain.Finding.{InputHashes, same_inputs, Finding, FindingReport}
use policyfuzz.Evaluation.Resolution.{DimensionResult}
use policyfuzz.Evaluation.Assertions.{AssertionResult}
use policyfuzz.Evaluation.Engine.{ScenarioEvaluation}
use policyfuzz.Evaluation.Reports.{EvaluationReport}
use policyfuzz.Evaluation.Benchmark.{is_scored}
use policyfuzz.Evaluation.Metrics.{AssertionCounts, assertion_counts, assertion_pass_percent}
pub mod Counts

pub record EffectStateCounts : Type 0 where
  pub value : ℕ
  pub gap : ℕ
  pub not_applicable : ℕ
  pub conflict : ℕ
  pub inconclusive : ℕ
  pub error : ℕ

pub record MetricsReport : Type 0 where
  pub inputs : InputHashes
  pub scenario_count : ℕ
  pub effect_states : EffectStateCounts
  pub assertions : AssertionCounts
  pub unique_finding_count : ℕ
  pub coverage : CoverageSnapshot
  pub assertion_pass_percent : Option ℕ

pub record MetricsRequest : Type 0 where
  pub evaluation : EvaluationReport
  pub findings : FindingReport

-- `effect for result in results for effect in result.trace.resolved_effects`
abbrev pub effects_of : List ScenarioEvaluation → List DimensionResult
effects_of [] = []
effects_of (r ∷ rs) = r.trace.resolved_effects ++ effects_of rs

-- One entry of the `Counter`
abbrev pub count_status : EffectStatus → List DimensionResult → ℕ
count_status s ds = length (keep (λ d. d.status == s) ds)

unfoldable pub effect_states : List ScenarioEvaluation → EffectStateCounts
effect_states rs = record {
  value = count_status EffectStatus.value (effects_of rs);
  gap = count_status EffectStatus.gap (effects_of rs);
  not_applicable = count_status EffectStatus.not_applicable (effects_of rs);
  conflict = count_status EffectStatus.conflict (effects_of rs);
  inconclusive = count_status EffectStatus.inconclusive (effects_of rs);
  error = count_status EffectStatus.error (effects_of rs);
}

-- `scored_fingerprints`, a set
abbrev pub scored_fingerprints : List Finding → List String
scored_fingerprints fs = distinct (map (λ f. f.fingerprint_sha256) (keep is_scored fs))

abbrev pub metrics_of : MetricsRequest → MetricsReport
metrics_of request = record {
  inputs = request.evaluation.inputs;
  scenario_count = length request.evaluation.results;
  effect_states = effect_states request.evaluation.results;
  assertions = assertion_counts request.evaluation.results;
  unique_finding_count = length (scored_fingerprints request.findings.findings);
  coverage = request.evaluation.coverage;
  assertion_pass_percent = assertion_pass_percent request.evaluation.results;
}

unfoldable pub compute_metrics : MetricsRequest → Outcome MetricsReport
unfolding effect_states is_scored
compute_metrics request =
    require (same_inputs request.findings.inputs request.evaluation.inputs)
      "HASH_MISMATCH: metric finding anchors"
    >> ok (metrics_of request)

-- regression.py: the sum over the results of the sums over their effects, for each status
abbrev pub sum_status : EffectStatus → List ScenarioEvaluation → ℕ
sum_status s [] = 0
sum_status s (r ∷ rs) = count_status s r.trace.resolved_effects + sum_status s rs

unfoldable pub effect_counts : EvaluationReport → EffectStateCounts
effect_counts report = record {
  value = sum_status EffectStatus.value report.results;
  gap = sum_status EffectStatus.gap report.results;
  not_applicable = sum_status EffectStatus.not_applicable report.results;
  conflict = sum_status EffectStatus.conflict report.results;
  inconclusive = sum_status EffectStatus.inconclusive report.results;
  error = sum_status EffectStatus.error report.results;
}

pub record AssertionTransition : Type 0 where
  pub scenario_id : String
  pub assertion_id : String
  pub before : AssertionStatus
  pub after : AssertionStatus
  pub protected : Bool
  pub targeted : Bool

unfoldable pub compare_assertion_outcomes :
    AssertionResult → AssertionResult → String → Bool → Bool → Outcome AssertionTransition
compare_assertion_outcomes before after scenario_id protected targeted =
    require (before.assertion_id == after.assertion_id) "assertion identity mismatch"
    >> ok (record {
      scenario_id = scenario_id;
      assertion_id = before.assertion_id;
      before = before.status;
      after = after.status;
      protected = protected;
      targeted = targeted;
    })

length-keep-append :
    (p : DimensionResult → Bool) (xs ys : List DimensionResult)
    → length (keep p (xs ++ ys)) ≡ length (keep p xs) + length (keep p ys)
length-keep-append p [] ys = omega arith
length-keep-append p (x ∷ xs) ys = ground (arith, length-keep-append p xs ys)

sum_status-count :
    (s : EffectStatus) (rs : List ScenarioEvaluation)
    → sum_status s rs ≡ count_status s (effects_of rs)
sum_status-count s [] = refl
sum_status-count s (r ∷ rs) = omega (
  arith,
  length-keep-append (λ d. d.status == s) r.trace.resolved_effects (effects_of rs),
  sum_status-count s rs,
)

-- The counts of effect states that a comparison reports are those of the metrics.
pub effect_counts-effect_states :
    (report : EvaluationReport) → effect_counts report ≡ effect_states report.results
unfolding effect_counts effect_states
effect_counts-effect_states report =
    rw
      (
        sum_status-count EffectStatus.value report.results,
        sum_status-count EffectStatus.gap report.results,
        sum_status-count EffectStatus.not_applicable report.results,
        sum_status-count EffectStatus.conflict report.results,
        sum_status-count EffectStatus.inconclusive report.results,
        sum_status-count EffectStatus.error report.results,
      )
      refl
