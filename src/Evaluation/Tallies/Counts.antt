-- ===== src/Evaluation/Tallies/Counts.antt =====
-- What the counts of `compute_metrics` count.
use policyfuzz.Prelude.{
  String, ℕ, suc, ◌≡◌, ◌≢◌, ◌⊎◌, ◌↔◌, inl, inr, refl, Bool, true, false, List, [], ◌∷◌, ◌++◌, map,
  keep, length, distinct, has_duplicates, has_duplicates-distinct, elem, elem-distinct_eq,
  elem-cons, elem-here, elem-there, string_eq, ◌==◌, ==→eq, eq→==, ok, raised, value_error,
  Bool-cases, arith, not, and_left, and_right, and_intro, ap, subst, ◌∙◌,
}
use policyfuzz.Domain.Vocabulary.{
  EffectStatus, effect_status_eq, AssertionStatus, assertion_status_eq,
}
use policyfuzz.Domain.Finding.{
  same_inputs, Finding, FindingType, finding_type_eq, EvidenceLevel, candidate, is_candidate,
}
use policyfuzz.Evaluation.Resolution.{DimensionResult}
use policyfuzz.Evaluation.Assertions.{AssertionResult}
use policyfuzz.Evaluation.Engine.{ScenarioEvaluation}
use policyfuzz.Evaluation.Benchmark.{is_scored}
use policyfuzz.Evaluation.Metrics.{
  assertion_counts, assertion_counts-total, assertion_pass_percent, results_of, total, PercentOf,
  percent-PercentOf,
}
use policyfuzz.Evaluation.Tallies.{
  MetricsReport, MetricsRequest, effects_of, effect_states, metrics_of, compute_metrics,
}

-- Exactly `n` elements of a list have a property.
pub data Occurs {ℓ κ} {A : Type ℓ} (P : A → Type κ) : List A → ℕ → Type (ℓ ⊔ κ) where
  nowhere : Occurs P [] 0
  here : {x : A} {xs : List A} {n : ℕ} → P x → Occurs P xs n → Occurs P (x ∷ xs) (suc n)
  elsewhere : {x : A} {xs : List A} {n : ℕ} → ¬ P x → Occurs P xs n → Occurs P (x ∷ xs) n

Occurs-keep {ℓ κ} :
    {A : Type ℓ} (P : A → Type κ) (p : A → Bool)
    → ((x : A) → (p x ≡ true) ↔ P x)
    → (xs : List A) → Occurs P xs (length (keep p xs))
Occurs-keep P p h [] = nowhere
Occurs-keep P p h (x ∷ xs) = elim (Bool-cases (p x)) [
  | inl kept ↦ rw kept (here ((h x).0 kept) (Occurs-keep P p h xs))
  | inr dropped ↦ rw dropped (elsewhere (λ e. cc ((h x).1 e)) (Occurs-keep P p h xs))
]

-- The lists that the scenarios of a report hold, one after the other.
abbrev pub gathered {ℓ} :
    {A : Type ℓ} → (ScenarioEvaluation → List A) → List ScenarioEvaluation → List A
gathered f [] = []
gathered f (e ∷ es) = f e ++ gathered f es

effects_of-gathered :
    (es : List ScenarioEvaluation) → effects_of es ≡ gathered (λ e. e.trace.resolved_effects) es
effects_of-gathered [] = refl
effects_of-gathered (e ∷ es) = rw (effects_of-gathered es) refl

results_of-gathered :
    (es : List ScenarioEvaluation) → results_of es ≡ gathered (λ e. e.assertion_results) es
results_of-gathered [] = refl
results_of-gathered (e ∷ es) = rw (results_of-gathered es) refl

-- A finding that is neither a candidate nor a potential loophole
abbrev pub IsScored : Finding → Type 0
IsScored g = (g.evidence_level ≢ candidate) × (g.finding_type ≢ FindingType.potential_loophole)

-- A scored finding of the list has the fingerprint.
abbrev pub IsScoredIn : List Finding → String → Type 0
IsScoredIn [] f = ⊥
IsScoredIn (g ∷ gs) f = (IsScored g × (g.fingerprint_sha256 ≡ f)) ⊎ IsScoredIn gs f

module _ (es : List ScenarioEvaluation) where
  -- `n` of all resolved effects have the status.
  abbrev pub CountsEffects : EffectStatus → ℕ → Type 0
  CountsEffects s n = Occurs (λ d. d.status ≡ s) (gathered (λ e. e.trace.resolved_effects) es) n

  -- `n` of all assertion results have the status.
  abbrev pub CountsResults : AssertionStatus → ℕ → Type 0
  CountsResults s n = Occurs (λ r. r.status ≡ s) (gathered (λ e. e.assertion_results) es) n

-- What the metrics of a request say
pub record IsTally (request : MetricsRequest) (m : MetricsReport) : Type 0 where
  pub values : CountsEffects request.evaluation.results EffectStatus.value m.effect_states.value
  pub gaps : CountsEffects request.evaluation.results EffectStatus.gap m.effect_states.gap
  pub not_applicables :
      CountsEffects request.evaluation.results EffectStatus.not_applicable
        m.effect_states.not_applicable
  pub conflicts :
      CountsEffects request.evaluation.results EffectStatus.conflict m.effect_states.conflict
  pub inconclusives :
      CountsEffects request.evaluation.results EffectStatus.inconclusive
        m.effect_states.inconclusive
  pub errors : CountsEffects request.evaluation.results EffectStatus.error m.effect_states.error
  pub passes : CountsResults request.evaluation.results AssertionStatus.pass m.assertions.passed
  pub failures : CountsResults request.evaluation.results AssertionStatus.fail m.assertions.failed
  pub undecided :
      CountsResults request.evaluation.results AssertionStatus.inconclusive
        m.assertions.inconclusive
  pub broken : CountsResults request.evaluation.results AssertionStatus.error m.assertions.error
  pub causes :
      (fingerprints : List String) × (has_duplicates fingerprints ≡ false)
      × ((f : String) → (elem fingerprints f ≡ true) ↔ IsScoredIn request.findings.findings f)
      × (length fingerprints ≡ m.unique_finding_count)
  pub share :
      PercentOf m.assertions.passed
        (length (gathered (λ e. e.assertion_results) request.evaluation.results))
        m.assertion_pass_percent

candidate_iff : (l : EvidenceLevel) → (not (is_candidate l) ≡ true) ↔ (l ≢ candidate)
candidate_iff candidate = (λ h e. cc, λ n. absurd (n refl))
candidate_iff EvidenceLevel.mechanically_reproduced = (λ h e. cc, λ n. refl)
candidate_iff EvidenceLevel.session_confirmed = (λ h e. cc, λ n. refl)

loophole_iff :
    (t : FindingType)
    → (not (t == FindingType.potential_loophole) ≡ true) ↔ (t ≢ FindingType.potential_loophole)
loophole_iff t = (
  λ h e. let same = eq→== t FindingType.potential_loophole e in ground arith,
  λ n. elim (Bool-cases (t == FindingType.potential_loophole)) [
    | inl same ↦ absurd (n (==→eq t FindingType.potential_loophole same))
    | inr other ↦ rw other refl
  ],
)

is_scored-IsScored : (g : Finding) → (is_scored g ≡ true) ↔ IsScored g
unfolding is_scored
is_scored-IsScored g =
    let level = candidate_iff g.evidence_level in
    let kind = loophole_iff g.finding_type in
    (
      λ h. (
        level.0 (and_left _ (not (g.finding_type == FindingType.potential_loophole)) h),
        kind.0 (and_right (not (is_candidate g.evidence_level)) _ h),
      ),
      λ (l, k). and_intro _ _ (level.1 l) (kind.1 k),
    )

fingerprints_iff :
    (gs : List Finding) (f : String)
    → (elem (map (λ g. g.fingerprint_sha256) (keep is_scored gs)) f ≡ true) ↔ IsScoredIn gs f
fingerprints_iff [] f = (λ h. cc, λ h. absurd h)
fingerprints_iff (g ∷ gs) f =
    let kept = map (λ g. g.fingerprint_sha256) (keep is_scored gs) in
    let rest = fingerprints_iff gs f in
    let scored = is_scored-IsScored g in
    elim (Bool-cases (is_scored g)) [
      | inl counted ↦ (
        λ h. elim (elem-cons g.fingerprint_sha256 f kept (rw counted at h)) [
          | inl same ↦ inl (scored.0 counted, same)
          | inr later ↦ inr (rest.0 later)
        ],
        λ h. rw counted (elim h [
          | inl (_, same) ↦ rw same (elem-here f kept)
          | inr later ↦ elem-there g.fingerprint_sha256 f kept (rest.1 later)
        ]),
      )
      | inr omitted ↦ (
        λ h. inr (rest.0 (rw omitted at h)),
        λ h. rw omitted (elim h [ inl (s, _) ↦ cc (scored.1 s) | inr later ↦ rest.1 later ]),
      )
    ]

module _ (es : List ScenarioEvaluation) where
  counted_effects :
      (s : EffectStatus) → CountsEffects es s (length (keep (λ d. d.status == s) (effects_of es)))
  counted_effects s = rw (effects_of-gathered es) (
      Occurs-keep (λ (d : DimensionResult). d.status ≡ s) (λ d. d.status == s)
        (λ d. (==→eq d.status s, eq→== d.status s)) (gathered (λ e. e.trace.resolved_effects) es))

  counted_results :
      (s : AssertionStatus)
      → CountsResults es s (length (keep (λ r. r.status == s) (results_of es)))
  counted_results s = rw (results_of-gathered es) (
      Occurs-keep (λ (r : AssertionResult). r.status ≡ s) (λ r. r.status == s)
        (λ r. (==→eq r.status s, eq→== r.status s)) (gathered (λ e. e.assertion_results) es))

  passed_share :
      PercentOf
        (assertion_counts es).passed
        (length (gathered (λ e. e.assertion_results) es))
        (assertion_pass_percent es)
  unfolding assertion_pass_percent assertion_counts
  passed_share =
      subst (λ d. PercentOf (assertion_counts es).passed d (assertion_pass_percent es))
        (assertion_counts-total es ∙ ap length (results_of-gathered es))
        (percent-PercentOf (assertion_counts es).passed (total (assertion_counts es)) (omega arith))

-- The metrics are refused exactly for findings of other inputs than the evaluation's. Else each of
-- the six counts of effect states is the number of resolved effects with that status, each of the
-- four assertion counts the number of assertion results with that status, over all scenarios; the
-- number of causes is the size of the set of the fingerprints of the findings that are neither
-- candidates nor potential loopholes; and the percentage is the share of the assertion results that
-- pass, rounded to the nearest and at most 100, or none without results.
pub compute_metrics-IsTally :
    (request : MetricsRequest)
    → ((same_inputs request.findings.inputs request.evaluation.inputs ≡ false)
        × (compute_metrics request ≡ raised (value_error "HASH_MISMATCH: metric finding anchors")))
      ⊎ ((same_inputs request.findings.inputs request.evaluation.inputs ≡ true)
          × ((m : MetricsReport) × (compute_metrics request ≡ ok m) × IsTally request m))
unfolding compute_metrics effect_states assertion_counts
compute_metrics-IsTally request =
    elim (Bool-cases (same_inputs request.findings.inputs request.evaluation.inputs)) [
      | inr differ ↦ inl (differ, rw differ refl)
      | inl same ↦
          let es = request.evaluation.results in
          let found =
            map (λ (g : Finding). g.fingerprint_sha256)
              (keep is_scored request.findings.findings) in
          inr (
            same,
            (
              metrics_of request,
              rw same refl,
              record {
                values = counted_effects es EffectStatus.value;
                gaps = counted_effects es EffectStatus.gap;
                not_applicables = counted_effects es EffectStatus.not_applicable;
                conflicts = counted_effects es EffectStatus.conflict;
                inconclusives = counted_effects es EffectStatus.inconclusive;
                errors = counted_effects es EffectStatus.error;
                passes = counted_results es AssertionStatus.pass;
                failures = counted_results es AssertionStatus.fail;
                undecided = counted_results es AssertionStatus.inconclusive;
                broken = counted_results es AssertionStatus.error;
                causes = (
                  distinct found,
                  has_duplicates-distinct found,
                  λ f. rw (elem-distinct_eq found f) (fingerprints_iff request.findings.findings f),
                  refl,
                );
                share = passed_share es;
              },
            ),
          )
    ]
