-- ===== src/Evaluation/Benchmark/Scores.antt =====
-- What a score says of the findings and the defects.
use policyfuzz.Prelude.{
  String, ◌+◌, ◌*◌, ◌≡◌, refl, ◌∙◌, Bool, true, false, not, ◌&&◌, List, [], ◌∷◌, map, any, keep,
  length, has_duplicates, string_eq, ok, ok-injective, >>=-eq-ok, require->>, each_ok, require,
  ◌>>◌, arith, length-sorted_by, length-keep-sorted_by, any-sorted_by, has_duplicates-sorted_by,
  has_duplicates-keep, length-keep-le, sorted_by, subst,
}
use policyfuzz.Domain.Finding.{Finding}
use policyfuzz.Evaluation.Engine.{EvaluationTrace, ScenarioEvaluation}
use policyfuzz.Evaluation.Metrics.{PercentOf, percent-PercentOf}
use policyfuzz.Evaluation.Benchmark.Defs.{
  BenchmarkDefect, matches, maximum_matching, fingerprints, is_scored, scored_findings,
  ScoreBenchmarkRequest, BenchmarkScore, check_finding, validate_results, validate_defects,
  validate_findings, validate_evidence, score_benchmark,
}
use policyfuzz.Evaluation.Benchmark.Matching.{maximum_matching-exact, maximum_matching_le}

-- A finding that is scored and that some defect of the manifest matches.
abbrev pub is_true_positive : List BenchmarkDefect → Finding → Bool
is_true_positive defects f = is_scored f && any (λ d. matches d f) defects

pub record IsScore (request : ScoreBenchmarkRequest) (s : BenchmarkScore) : Type 0 where
  pub hits :
      s.true_positives
      ≡ length (keep (is_true_positive request.manifest.defects) request.findings.findings)
  pub all_findings :
      s.true_positives + s.false_positives ≡ length (keep is_scored request.findings.findings)
  pub all_defects : s.true_positives + s.false_negatives ≡ length request.manifest.defects
  pub precision :
      PercentOf s.true_positives (s.true_positives + s.false_positives) s.precision_percent
  pub recall : PercentOf s.true_positives (s.true_positives + s.false_negatives) s.recall_percent
  pub f1 :
      PercentOf
        (2 * s.true_positives)
        (2 * s.true_positives + s.false_positives + s.false_negatives)
        s.f1_percent

length-keep-keep :
    (p q : Finding → Bool) (fs : List Finding)
    → length (keep p (keep q fs)) ≡ length (keep (λ f. q f && p f) fs)
length-keep-keep p q [] = refl
length-keep-keep p q (f ∷ fs) = ground (arith, length-keep-keep p q fs)

length-keep-cong :
    (p q : Finding → Bool) (fs : List Finding)
    → ((f : Finding) → p f ≡ q f)
    → length (keep p fs) ≡ length (keep q fs)
length-keep-cong p q [] h = refl
length-keep-cong p q (f ∷ fs) h = ground (arith, h f, length-keep-cong p q fs h)

length-scored : (fs : List Finding) → length (scored_findings fs) ≡ length (keep is_scored fs)
length-scored fs =
    length-sorted_by (λ f. f.fingerprint_sha256) (sorted_by (λ f. f.finding_id) (keep is_scored fs))
    ∙ length-sorted_by (λ f. f.finding_id) (keep is_scored fs)

length-keep-scored :
    (p : Finding → Bool) (fs : List Finding)
    → length (keep p (scored_findings fs)) ≡ length (keep (λ f. is_scored f && p f) fs)
length-keep-scored p fs =
    length-keep-sorted_by p (λ f. f.fingerprint_sha256)
      (sorted_by (λ f. f.finding_id) (keep is_scored fs))
    ∙ length-keep-sorted_by p (λ f. f.finding_id) (keep is_scored fs)
    ∙ length-keep-keep p is_scored fs

scored_unique :
    (fs : List Finding)
    → has_duplicates (fingerprints fs) ≡ false
    → has_duplicates (fingerprints (scored_findings fs)) ≡ false
scored_unique fs h =
    has_duplicates-sorted_by (λ f. f.fingerprint_sha256) (λ f. f.fingerprint_sha256)
      (sorted_by (λ f. f.finding_id) (keep is_scored fs))
    ∙ has_duplicates-sorted_by (λ f. f.fingerprint_sha256) (λ f. f.finding_id) (keep is_scored fs)
    ∙ has_duplicates-keep (λ f. f.fingerprint_sha256) is_scored fs h

-- The matching of the sorted defects with the sorted scored findings, in terms of the unsorted ones
matching-scored :
    (ds : List BenchmarkDefect) (fs : List Finding)
    → has_duplicates (fingerprints fs) ≡ false
    → maximum_matching (sorted_by (λ d. d.defect_id) ds) (scored_findings fs)
      ≡ length (keep (is_true_positive ds) fs)
matching-scored ds fs h =
    maximum_matching-exact (sorted_by (λ d. d.defect_id) ds) (scored_findings fs)
      (scored_unique fs h)
    ∙ length-keep-cong (λ f. any (λ d. matches d f) (sorted_by (λ d. d.defect_id) ds))
        (λ f. any (λ d. matches d f) ds) (scored_findings fs)
        (λ f. any-sorted_by (λ d. matches d f) (λ d. d.defect_id) ds)
    ∙ length-keep-scored (λ f. any (λ d. matches d f) ds) fs

cleared : (b : Bool) → not b ≡ true → b ≡ false
cleared true h = cc
cleared false h = refl

module _ (payload_hash : EvaluationTrace → String) (sha256 : String → String) where
  findings_unique :
      (results : List ScenarioEvaluation) (fs : List Finding)
      → validate_findings payload_hash sha256 results fs ≡ ok tt
      → has_duplicates (fingerprints fs) ≡ false
  unfolding validate_findings
  findings_unique results fs h =
      let ids = has_duplicates (map (λ f. f.finding_id) fs) in
      let (_, h1) =
        require->> (not ids) "finding report contains duplicate finding IDs"
          (require (not (has_duplicates (fingerprints fs)))
              "finding report contains duplicate root-cause fingerprints"
            >> each_ok (check_finding payload_hash sha256 results) fs)
          h in
      let (unique, _) =
        require->> (not (has_duplicates (fingerprints fs)))
          "finding report contains duplicate root-cause fingerprints"
          (each_ok (check_finding payload_hash sha256 results) fs) h1 in
      cleared (has_duplicates (fingerprints fs)) unique

  validate_evidence_unique :
      (request : ScoreBenchmarkRequest)
      → validate_evidence payload_hash sha256 request ≡ ok tt
      → has_duplicates (fingerprints request.findings.findings) ≡ false
  unfolding validate_evidence
  validate_evidence_unique request h =
      let fs = request.findings.findings in
      let manifest = request.manifest in
      let results =
        validate_results payload_hash sha256 manifest request.findings request.evaluation in
      let (_, _, h1) = >>=-eq-ok results _ h in
      let (_, _, h2) = >>=-eq-ok (validate_defects payload_hash sha256 manifest) _ h1 in
      findings_unique request.evaluation.results fs h2

  -- A score that is returned counts as true positives the scored findings that a defect of the
  -- manifest matches, as false positives the other scored findings and as false negatives as many
  -- defects as are left over; precision, recall and F1 are those shares, rounded and at most 100.
  pub score_benchmark-IsScore :
      (request : ScoreBenchmarkRequest) (s : BenchmarkScore)
      → score_benchmark payload_hash sha256 request ≡ ok s
      → IsScore request s
  unfolding score_benchmark
  score_benchmark-IsScore request s h =
      let fs = request.findings.findings in
      let ds = request.manifest.defects in
      let (_, valid, e) = >>=-eq-ok (validate_evidence payload_hash sha256 request) _ h in
      let exact = matching-scored ds fs (validate_evidence_unique request valid) in
      let few = maximum_matching_le (sorted_by (λ d. d.defect_id) ds) (scored_findings fs) in
      let sorted_defects = length-sorted_by (λ d. d.defect_id) ds in
      let sorted_findings = length-scored fs in
      let split = length-keep-keep (λ f. any (λ d. matches d f) ds) is_scored fs in
      let bound = length-keep-le (λ f. any (λ d. matches d f) ds) (keep is_scored fs) in
      subst (IsScore request) (ok-injective _ s e) (record {
        hits = exact;
        all_findings = omega arith;
        all_defects = omega arith;
        precision = percent-PercentOf _ _ (omega arith);
        recall = percent-PercentOf _ _ (omega arith);
        f1 = percent-PercentOf _ _ (omega arith);
      })
