-- ===== src/Evaluation/Benchmark/Defs.antt =====
-- The benchmark models of backend/app/domain/models/evaluation.py and the functions of benchmark.py.
-- The digests of traces and of quotes are parameters.
use policyfuzz.Prelude.{
  String, ℕ, zero, suc, ◌+◌, ◌-◌, ◌*◌, Bool, true, false, not, ◌&&◌, ◌||◌, List, [], ◌∷◌, map, keep,
  all, any, elem, subset, has_duplicates, sorted, sorted_by, length, ◌==◌, string_eq, nat_eq,
  Option, none, some, Outcome, ok, ◌>>◌, require, each_ok, if◌then◌else◌,
}
use policyfuzz.Domain.Vocabulary.{EffectDimension, dimension_eq, Severity}
use policyfuzz.Domain.Rule.{SourceSpan}
use policyfuzz.Domain.Intent.{is_some, AssertionOrigin}
use policyfuzz.Domain.Scenario.{Scenario, ScenarioPartition, ScenarioOrigin, scenario_origin_eq}
use policyfuzz.Domain.Finding.{
  InputHashes, same_inputs, FindingType, finding_type_eq, Finding, TraceRef, FindingReport,
  is_candidate, traced, same_set,
}
use policyfuzz.Evaluation.Engine.{EvaluationTrace, ScenarioEvaluation}
use policyfuzz.Evaluation.Reports.{EvaluationReport}
use policyfuzz.Evaluation.Metrics.{percent}

pub record BenchmarkDefect : Type 0 where
  pub defect_id : String
  pub finding_type : FindingType
  pub dimension : EffectDimension
  pub target_ids : List String
  pub severity : Severity
  pub source_spans : List SourceSpan
  pub semantic_signature_sha256 : Option String
  pub permitted_witness_ids : List String
  pub expected_finding_fingerprint_sha256 : Option String
  pub partition : ScenarioPartition
  pub unsupported_clause : Bool

pub record BenchmarkManifest : Type 0 where
  pub benchmark_id : String
  pub document_sha256 : String
  pub policy_contract_sha256 : String
  pub engine_version : String
  pub sealed_at : String
  pub seal_sha256 : String
  pub defects : List BenchmarkDefect
  pub gold_scenarios : List Scenario
  pub required_dimensions : List EffectDimension

abbrev is_gold : AssertionOrigin → Bool
is_gold AssertionOrigin.gold = true
is_gold _ = false

-- `BenchmarkManifest.gold_only`
unfoldable pub gold_only : BenchmarkManifest → Outcome (Unit {0})
gold_only manifest = do
  require
      (all (λ s. elem s.origins ScenarioOrigin.gold && all (λ a. is_gold a.origin) s.assertions)
        manifest.gold_scenarios)
      "benchmark gold scenarios require gold origins and labels"
  require (not (has_duplicates (map (λ d. d.defect_id) manifest.defects)))
      "benchmark defect IDs must be unique"

pub record BenchmarkScore : Type 0 where
  pub benchmark_id : String
  pub inputs : InputHashes
  pub true_positives : ℕ
  pub false_positives : ℕ
  pub false_negatives : ℕ
  pub precision_percent : Option ℕ
  pub recall_percent : Option ℕ
  pub f1_percent : Option ℕ

pub record ScoreBenchmarkRequest : Type 0 where
  pub manifest : BenchmarkManifest
  pub findings : FindingReport
  pub evaluation : EvaluationReport

abbrev option_to_list : Option String → List String
option_to_list none = []
option_to_list (some s) = s ∷ []

abbrev targets_of : FindingType → Finding → List String
targets_of FindingType.intent_breach f = option_to_list f.invariant_id
targets_of FindingType.regression f = option_to_list f.assertion_id
targets_of _ f = sorted f.rule_ids

unfoldable pub finding_targets : Finding → List String
finding_targets f = targets_of f.finding_type f

unfoldable pub is_scored : Finding → Bool
is_scored f =
    not (is_candidate f.evidence_level) && not (f.finding_type == FindingType.potential_loophole)

abbrev pub fingerprints : List Finding → List String
fingerprints fs = map (λ f. f.fingerprint_sha256) fs

-- `{result.scenario_id: result for result in evaluation.results}.get(scenario_id)`
unfoldable pub find_result : String → List ScenarioEvaluation → Option ScenarioEvaluation
find_result id [] = none
find_result id (r ∷ rs) = elim (find_result id rs) [
  | some later ↦ some later
  | none ↦ if r.scenario_id == id then some r else none
]

abbrev witnessed_by : TraceRef → Option ScenarioEvaluation → Bool
witnessed_by t none = false
witnessed_by t (some r) = r.trace.trace_sha256 == t.trace_sha256

module _ (payload_hash : EvaluationTrace → String) (sha256 : String → String) where
  abbrev check_span : String → SourceSpan → Outcome (Unit {0})
  check_span message span = require (sha256 span.quote == span.quote_sha256) message

  unfoldable pub check_defect : List String → BenchmarkDefect → Outcome (Unit {0})
  check_defect gold_ids d = do
    require (not (has_duplicates d.target_ids)) "benchmark defect contains duplicate target IDs"
    require (not (has_duplicates d.permitted_witness_ids))
        "benchmark defect contains duplicate permitted witnesses"
    require (subset d.permitted_witness_ids gold_ids)
        "benchmark defect witness is outside the gold suite"
    require (is_some d.expected_finding_fingerprint_sha256)
        "benchmark scoring requires an explicit expected finding fingerprint"
    each_ok (check_span "HASH_MISMATCH: benchmark source citation") d.source_spans

  unfoldable pub check_finding : List ScenarioEvaluation → Finding → Outcome (Unit {0})
  unfolding find_result
  check_finding results f = do
    require (not (has_duplicates f.scenario_ids || has_duplicates (traced f)))
        "finding contains duplicate witness"
    require (same_set f.scenario_ids (traced f)) "finding witness and trace identities differ"
    each_ok
        (λ t.
          require (witnessed_by t (find_result t.scenario_id results))
            "HASH_MISMATCH: finding witness trace")
        f.traces
    each_ok (check_span "HASH_MISMATCH: finding citation") f.citations

  abbrev gold_ids : BenchmarkManifest → List String
  gold_ids manifest = map (λ s. s.scenario_id) manifest.gold_scenarios

  unfoldable pub validate_results :
      BenchmarkManifest → FindingReport → EvaluationReport → Outcome (Unit {0})
  validate_results manifest findings evaluation = do
    require
        (same_inputs findings.inputs evaluation.inputs
          && (manifest.policy_contract_sha256 == evaluation.inputs.contract_sha256
              && manifest.engine_version == evaluation.engine_version))
        "HASH_MISMATCH: benchmark inputs"
    require (not (has_duplicates (gold_ids manifest)))
        "benchmark contains duplicate gold scenario IDs"
    require (same_set (gold_ids manifest) (map (λ r. r.scenario_id) evaluation.results))
        "HASH_MISMATCH: benchmark evaluation scenario set"
    each_ok
        (λ r.
          require (payload_hash r.trace == r.trace.trace_sha256)
            "HASH_MISMATCH: fabricated evaluation trace")
        evaluation.results

  unfoldable pub validate_defects : BenchmarkManifest → Outcome (Unit {0})
  unfolding check_defect
  validate_defects manifest = do
    require (not (has_duplicates (map (λ d. d.defect_id) manifest.defects)))
        "benchmark contains duplicate defect IDs"
    each_ok (check_defect (gold_ids manifest)) manifest.defects

  unfoldable pub validate_findings : List ScenarioEvaluation → List Finding → Outcome (Unit {0})
  unfolding check_finding
  validate_findings results findings = do
    require (not (has_duplicates (map (λ f. f.finding_id) findings)))
        "finding report contains duplicate finding IDs"
    require (not (has_duplicates (fingerprints findings)))
        "finding report contains duplicate root-cause fingerprints"
    each_ok (check_finding results) findings

  unfoldable pub validate_evidence : ScoreBenchmarkRequest → Outcome (Unit {0})
  unfolding validate_results validate_defects validate_findings
  validate_evidence request = do
    validate_results request.manifest request.findings request.evaluation
    validate_defects request.manifest
    validate_findings request.evaluation.results request.findings.findings

abbrev same_texts : List String → List String → Bool
same_texts [] [] = true
same_texts (x ∷ xs) (y ∷ ys) = x == y && same_texts xs ys
same_texts _ _ = false

abbrev pub is_expected : Option String → String → Bool
is_expected none s = false
is_expected (some t) s = t == s

unfoldable pub matches : BenchmarkDefect → Finding → Bool
unfolding finding_targets
matches d f =
    d.finding_type == f.finding_type
    && (d.dimension == f.dimension
        && (same_texts (sorted d.target_ids) (finding_targets f)
            && (is_expected d.expected_finding_fingerprint_sha256 f.fingerprint_sha256
                && any (elem f.scenario_ids) d.permitted_witness_ids)))

-- `matched_findings`, from the index of a finding to that of its defect; the newest pair counts.
unfoldable pub owner : ℕ → List (ℕ × ℕ) → Option ℕ
owner k [] = none
owner k ((j, i) ∷ m) = if j == k then some i else owner k m

unfoldable pub nth : ℕ → List BenchmarkDefect → Option BenchmarkDefect
nth i [] = none
nth zero (d ∷ ds) = some d
nth (suc i) (d ∷ ds) = nth i ds

-- What `assign` returns, and the two collections that it may change
pub record Attempt : Type 0 where
  pub found : Bool
  pub visited : List ℕ
  pub matched : List (ℕ × ℕ)

abbrev pub gives_up : List ℕ → List (ℕ × ℕ) → Attempt
gives_up v m = record { found = false; visited = v; matched = m }

abbrev pub takes : ℕ → ℕ → List ℕ → List (ℕ × ℕ) → Attempt
takes k i v m = record { found = true; visited = v; matched = (k, i) ∷ m }

-- The loop of `assign` over the findings from index `k` on; `again` is the recursive call.
unfoldable pub scan :
    (ℕ → List ℕ → List (ℕ × ℕ) → Attempt)
    → BenchmarkDefect
    → ℕ
    → List Finding
    → ℕ
    → List ℕ
    → List (ℕ × ℕ)
    → Attempt
unfolding matches owner
scan again d i [] k v m = gives_up v m
scan again d i (f ∷ fs) k v m = elim (elem v k || not (matches d f)) [
  | true ↦ scan again d i fs (suc k) v m
  | false ↦ elim (owner k m) [
    | none ↦ takes k i (k ∷ v) m
    | some prior ↦
        let a = again prior (k ∷ v) m in
        elim a.found [
          | true ↦ takes k i a.visited a.matched
          | false ↦ scan again d i fs (suc k) a.visited a.matched
        ]
  ]
]

module _ (defects : List BenchmarkDefect) (findings : List Finding) where
  -- Each recursive call has visited one more finding, so the fuel is one more than their number.
  unfoldable pub assign : ℕ → ℕ → List ℕ → List (ℕ × ℕ) → Attempt
  unfolding scan nth
  assign zero i v m = gives_up v m
  assign (suc fuel) i v m = elim (nth i defects) [
    | none ↦ gives_up v m
    | some d ↦ scan (assign fuel) d i findings 0 v m
  ]

  -- `sum(assign(index, set()) for index in range(len(defects)))`, from an index on
  unfoldable pub assign_each : ℕ → List BenchmarkDefect → ℕ → List (ℕ × ℕ) → ℕ
  unfolding assign
  assign_each fuel [] i m = 0
  assign_each fuel (d ∷ ds) i m =
      let a = assign fuel i [] m in
      (if a.found then 1 else 0) + assign_each fuel ds (suc i) a.matched

unfoldable pub maximum_matching : List BenchmarkDefect → List Finding → ℕ
unfolding assign_each
maximum_matching defects findings =
    assign_each defects findings (suc (length findings)) defects 0 []

-- `sorted(..., key=lambda finding: (finding.fingerprint_sha256, finding.finding_id))`: sorting is
-- stable, so it is a sort by the second part and one by the first.
abbrev pub scored_findings : List Finding → List Finding
scored_findings fs =
    sorted_by (λ f. f.fingerprint_sha256) (sorted_by (λ f. f.finding_id) (keep is_scored fs))

unfoldable pub score_benchmark :
    (EvaluationTrace → String) → (String → String) → ScoreBenchmarkRequest → Outcome BenchmarkScore
unfolding validate_evidence maximum_matching is_scored
score_benchmark payload_hash sha256 request = do
  validate_evidence payload_hash sha256 request
  let scored = scored_findings request.findings.findings
  let defects = sorted_by (λ d. d.defect_id) request.manifest.defects
  let true_positives = maximum_matching defects scored
  let false_positives = length scored - true_positives
  let false_negatives = length defects - true_positives
  ok (record {
    benchmark_id = request.manifest.benchmark_id;
    inputs = request.evaluation.inputs;
    true_positives = true_positives;
    false_positives = false_positives;
    false_negatives = false_negatives;
    precision_percent = percent true_positives (true_positives + false_positives);
    recall_percent = percent true_positives (true_positives + false_negatives);
    f1_percent =
        percent (2 * true_positives) (2 * true_positives + false_positives + false_negatives);
  })
