-- ===== src/Evaluation/Engine/Returns.antt =====
-- Every evaluation of a scenario returns a report: on success and on failure.
use policyfuzz.Prelude.{
  String, ◌≡◌, refl, true, List, [], ◌∷◌, All, Bool-cases, Option-cases, inl, inr, is_empty,
  sorted_by, require->>, Exception, value_error, rule_set_validation_error, patch_validation_error,
  type_error, key_error, recursion_error, stop_iteration, Outcome, Outcome-cases, ok, ◌>>◌, map_ok,
  if◌then◌else◌, Option, none, some, arith, >>=-eq-ok, ok-injective, subst, string_eq, ◌==◌,
}
use policyfuzz.Domain.Vocabulary.{
  EffectDimension, dimension_eq, eligibility, receipt_requirement, approval_requirement,
  claim_cap_minor, daily_category_cap_minor, effect_dimensions, EffectStatus, effect_status_eq,
  ComplianceStatus,
}
use policyfuzz.Domain.Rule.{
  EffectValue, text, amount, RuleProvenance, validate_effect_value, operand,
}
use policyfuzz.Domain.Facts.{ScenarioFacts, validate_facts}
use policyfuzz.Domain.Value.{apply_operator}
use policyfuzz.Domain.Policy.{PolicyIr}
use policyfuzz.Domain.Intent.{
  Assertion, TargetKind, AssertionOperator, PolicyContract, operator_of, is_some,
}
use policyfuzz.Domain.Scenario.{Scenario, scenario_origin_eq}
use policyfuzz.Evaluation.Predicates.{RuleTrace, rule_matches}
use policyfuzz.Evaluation.Resolution.{
  DimensionResult, iff, typed_resolution, check_value, open_clauses, resolve_dimension,
}
use policyfuzz.Evaluation.Compliance.{
  ComplianceResult, is_compliant, derive_compliance, check_rank, is_eligibility,
}
use policyfuzz.Evaluation.Assertions.{
  evaluate_assertion, find_dimension, find_compliance, by_status, by_value, by_compliance, scored,
  compare_none, status_of,
}
use policyfuzz.Evaluation.Engine.Scenarios.{
  EvaluationTrace, ScenarioEvaluation, matched_invariants, scenario_assertions,
  scenario_required_dimensions, compliance_of, all_compliance, validate_scenario, validated,
  verdict_of, evaluate_checked, evaluate_scenario, handled, failed,
}
use policyfuzz.Evaluation.Engine.Caught.{
  is_caught, Caught, Caught->>=, Caught-require, Caught-map_ok, Caught-apply_operator,
  Caught-rule_matches,
}
use policyfuzz.Evaluation.Engine.Total.{
  Caught-matched_invariants, Caught-scenario_assertions, Caught-validate_scenario,
  Caught-resolve_dimension,
}
use policyfuzz.Evaluation.Engine.Verdicts.{scored_verdict-verdict_of}
use policyfuzz.Evaluation.Engine.Reports.{IsReport, evaluate_checked-IsReport}

Caught-is_compliant :
    (d : EffectDimension) (v : EffectValue) (facts : ScenarioFacts)
    → validate_effect_value d v ≡ ok tt
    → Caught (is_compliant d v facts)
unfolding is_compliant validate_effect_value
Caught-is_compliant eligibility v facts h = tt
Caught-is_compliant receipt_requirement v facts h = tt
Caught-is_compliant approval_requirement (text s) facts h =
    let (n, e) = check_rank s (ground arith) in rw (e, Caught) tt
Caught-is_compliant approval_requirement (amount m) facts h = cc
Caught-is_compliant claim_cap_minor (text s) facts h = refl
Caught-is_compliant claim_cap_minor (amount m) facts h = tt
Caught-is_compliant daily_category_cap_minor (text s) facts h = refl
Caught-is_compliant daily_category_cap_minor (amount m) facts h = tt

Caught-derive_compliance :
    (d : EffectDimension) (v : EffectValue) (facts : ScenarioFacts)
    → validate_effect_value d v ≡ ok tt
    → Caught (derive_compliance d v facts)
unfolding derive_compliance validate_facts
Caught-derive_compliance d v facts h =
    Caught->>= (validate_facts facts) _ (Caught-require _ _) (λ _ _.
      elim (Bool-cases (is_eligibility d)) [
        | inl yes_eligibility ↦ rw (yes_eligibility, Caught) tt
        | inr requirement ↦
            rw (requirement, Caught)
              (Caught->>= (is_compliant d v facts) _ (Caught-is_compliant d v facts h) (λ _ _. tt))
      ])

typed_value :
    (d : DimensionResult) (v : EffectValue)
    → typed_resolution d ≡ ok tt
    → d.value ≡ some v
    → validate_effect_value d.dimension v ≡ ok tt
unfolding typed_resolution
typed_value d v h found =
    let (_, h1) = require->> (iff (d.status == EffectStatus.value) (is_some d.value)) _ _ h in
    let (_, e, _) = >>=-eq-ok (check_value d.dimension d.value) _ h1 in rw (found, check_value) at e

Caught-compliance_of :
    (d : DimensionResult) (facts : ScenarioFacts)
    → typed_resolution d ≡ ok tt
    → Caught (compliance_of d facts)
Caught-compliance_of d facts h = elim (Option-cases d.value) [
  | inl absent ↦ rw (absent, Caught) tt
  | inr (v, found) ↦
      rw (found, Caught)
        (Caught->>= (derive_compliance d.dimension v facts) _
          (Caught-derive_compliance d.dimension v facts (typed_value d v h found)) (λ _ _. tt))
]

Caught-all_compliance :
    (ds : List DimensionResult) (facts : ScenarioFacts)
    → All (λ d. typed_resolution d ≡ ok tt) ds
    → Caught (all_compliance ds facts)
unfolding all_compliance
Caught-all_compliance [] facts h = tt
Caught-all_compliance (d ∷ ds) facts h =
    Caught->>= (if is_eligibility d.dimension then ok [] else compliance_of d facts) _ mine (λ _ _.
      Caught->>= (all_compliance ds facts) _ (Caught-all_compliance ds facts h.1) (λ _ _. tt))
  where
    mine : Caught (if is_eligibility d.dimension then ok [] else compliance_of d facts)
    mine = elim (Bool-cases (is_eligibility d.dimension)) [
      | inl none_here ↦ rw (none_here, Caught) tt
      | inr requirement ↦ rw (requirement, Caught) (Caught-compliance_of d facts h.0)
    ]

Caught-scored : (a : Assertion) (v : EffectValue) → Caught (scored a v)
Caught-scored a v =
    Caught->>= (apply_operator (operator_of a.operator) (operand v) (operand a.expected_value)) _
      (Caught-apply_operator (operator_of a.operator) (operand v) (operand a.expected_value))
      (λ _ _. tt)

Caught-compare_none : (op : AssertionOperator) → Caught (compare_none op)
Caught-compare_none AssertionOperator.eq = tt
Caught-compare_none AssertionOperator.neq = tt
Caught-compare_none _ = refl

Caught-by_compliance : (a : Assertion) (s : Option ComplianceStatus) → Caught (by_compliance a s)
Caught-by_compliance a none = tt
Caught-by_compliance a (some ComplianceStatus.error) = tt
Caught-by_compliance a (some ComplianceStatus.compliant) = Caught-scored a (text "COMPLIANT")
Caught-by_compliance a (some ComplianceStatus.noncompliant) = Caught-scored a (text "NONCOMPLIANT")
Caught-by_compliance a (some _) = tt

Caught-by_value :
    (a : Assertion) (k : TargetKind) (v : Option EffectValue) (cs : List ComplianceResult)
    → Caught (by_value a k v cs)
Caught-by_value a TargetKind.compliance_value v cs =
    Caught-by_compliance a (status_of (find_compliance a.dimension cs))
Caught-by_value a TargetKind.effect_value (some v) cs = Caught-scored a v
Caught-by_value a TargetKind.effect_value none cs =
    Caught->>= (compare_none a.operator) _ (Caught-compare_none a.operator) (λ _ _. tt)

Caught-by_status :
    (a : Assertion) (s : EffectStatus) (v : Option EffectValue) (cs : List ComplianceResult)
    → Caught (by_status a s v cs)
Caught-by_status a EffectStatus.error v cs = tt
Caught-by_status a EffectStatus.value v cs = Caught-by_value a a.target_kind v cs
Caught-by_status a _ v cs = tt

Caught-evaluate_assertion :
    (a : Assertion) (ds : List DimensionResult) (cs : List ComplianceResult)
    → Caught (evaluate_assertion a ds cs)
unfolding evaluate_assertion
Caught-evaluate_assertion a ds cs = elim (Option-cases (find_dimension a.dimension ds)) [
  | inl absent ↦ rw (absent, evaluate_assertion, Caught) tt
  | inr (d, found) ↦ rw (found, evaluate_assertion, Caught) (Caught-by_status a d.status d.value cs)
]

-- A resolved dimension has passed its validator.
resolve_dimension-typed :
    (d : EffectDimension) (policy : PolicyIr) (facts : ScenarioFacts)
    (required : List EffectDimension) (traces : List RuleTrace) (r : DimensionResult)
    → resolve_dimension d policy facts required traces ≡ ok r
    → typed_resolution r ≡ ok tt
unfolding resolve_dimension
resolve_dimension-typed d policy facts required traces r h =
    let (unsupported, _, e) =
      >>=-eq-ok (open_clauses d required facts policy.unsupported_clauses) _ h in
    elim (Bool-cases (is_empty unsupported)) [
      | inl supported ↦ built_typed _ (rw supported at e)
      | inr unresolved ↦ built_typed _ (rw unresolved at e)
    ]
  where
    built_typed :
        (s : DimensionResult) → (typed_resolution s >> ok s) ≡ ok r → typed_resolution r ≡ ok tt
    built_typed s k =
        let (u, valid, same) = >>=-eq-ok (typed_resolution s) _ k in
        subst (λ x. typed_resolution x ≡ ok tt) (ok-injective s r same) valid

map_ok-All {ℓ κ μ} :
    {A : Type ℓ} {B : Type κ} (P : B → Type μ) (f : A → Outcome B)
    → ((x : A) (y : B) → f x ≡ ok y → P y)
    → (xs : List A) (ys : List B) → map_ok f xs ≡ ok ys
    → All P ys
map_ok-All P f each [] ys e = rw (← ok-injective _ _ e) tt
map_ok-All P f each (x ∷ xs) ys e =
    let (y, first, e1) = >>=-eq-ok (f x) _ e in
    let (rest, later, e2) = >>=-eq-ok (map_ok f xs) _ e1 in
    subst (All P) (ok-injective (y ∷ rest) ys e2)
      (each x y first, map_ok-All P f each xs rest later)

Caught-validated :
    (e : ScenarioEvaluation)
    → e.trace.scenario_id ≡ e.scenario_id
    → e.verdict ≡ verdict_of e.assertion_results
    → Caught (validated e)
Caught-validated e named computed = rw (scored_verdict-verdict_of e named computed, Caught) tt

module _ (canonical_sha256 : RuleProvenance → String)
    (payload_hash : EvaluationTrace → String) where
  Caught-evaluate_checked :
      (policy : PolicyIr) (contract : PolicyContract) (scenario : Scenario)
      → Caught (evaluate_checked canonical_sha256 payload_hash policy contract scenario)
  unfolding evaluate_checked
  Caught-evaluate_checked policy contract scenario =
      Caught->>= (validate_scenario scenario) _ (Caught-validate_scenario scenario) (λ _ _.
        Caught->>= (matched_invariants contract.invariants scenario.facts) _
          (Caught-matched_invariants contract.invariants scenario.facts)
          (λ invariants _.
            Caught->>= (scenario_assertions contract scenario) _
              (Caught-scenario_assertions contract scenario)
              (λ assertions _.
                Caught->>=
                  (map_ok (λ r. rule_matches r scenario.facts)
                    (sorted_by (λ r. r.rule_id) policy.rules))
                  _
                  (Caught-map_ok _ (sorted_by (λ r. r.rule_id) policy.rules)
                    (λ r. Caught-rule_matches r scenario.facts))
                  (λ traces _.
                    Caught->>=
                      (map_ok
                        (λ d.
                          resolve_dimension d policy scenario.facts
                            (scenario_required_dimensions scenario contract invariants) traces)
                        effect_dimensions)
                      _
                      (Caught-map_ok _ effect_dimensions (λ d.
                        Caught-resolve_dimension d policy scenario.facts
                          (scenario_required_dimensions scenario contract invariants) traces))
                      (λ dimensions found.
                        Caught->>= (all_compliance dimensions scenario.facts) _
                          (Caught-all_compliance dimensions scenario.facts (
                            map_ok-All (λ d. typed_resolution d ≡ ok tt) _
                              (λ d r e.
                                resolve_dimension-typed d policy scenario.facts
                                  (scenario_required_dimensions scenario contract invariants) traces
                                  r e)
                              effect_dimensions dimensions found))
                          (λ compliance _.
                            Caught->>=
                              (map_ok (λ a. evaluate_assertion a dimensions compliance) assertions)
                              _
                              (Caught-map_ok _ assertions
                                (λ a. Caught-evaluate_assertion a dimensions compliance))
                              (λ results _. Caught-validated _ refl refl)))))))

  pub evaluate_scenario-IsReport :
      (policy : PolicyIr) (contract : PolicyContract) (scenario : Scenario)
      → (e : ScenarioEvaluation) × (evaluate_scenario canonical_sha256 payload_hash policy contract
            scenario
          ≡ ok e)
        × IsReport e
  unfolding evaluate_scenario
  evaluate_scenario-IsReport policy contract scenario =
      elim (Outcome-cases
        (evaluate_checked canonical_sha256 payload_hash policy contract scenario)) [
          | inl (r, found) ↦ (
            r,
            rw (found, evaluate_scenario) refl,
            evaluate_checked-IsReport canonical_sha256 payload_hash policy contract scenario r
                found,
          )
          | inr (x, error) ↦
              let c : is_caught x ≡ true =
                rw error at (Caught-evaluate_checked policy contract scenario) in
              (
                failed canonical_sha256 payload_hash scenario,
                rw (error, evaluate_scenario) (returned x c),
                (refl, inl (refl, refl, refl)),
              )
        ]
    where
      returned :
          (x : Exception)
          → is_caught x ≡ true
          → handled canonical_sha256 payload_hash x (failed canonical_sha256 payload_hash scenario)
            ≡ ok (failed canonical_sha256 payload_hash scenario)
      returned key_error c = cc
      returned recursion_error c = cc
      returned stop_iteration c = cc
      returned type_error c = refl
      returned (value_error m) c = refl
      returned (rule_set_validation_error m) c = refl
      returned (patch_validation_error m) c = refl
