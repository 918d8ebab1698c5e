-- ===== src/Evaluation/Engine/Reports.antt =====
-- What `evaluate_scenario` reports, on success and on failure.
use policyfuzz.Prelude.{
  String, ◌≡◌, ◌⊎◌, refl, sym, ap, ◌∙◌, true, false, List, [], ◌∷◌, map, is_empty, Bool-cases, inl,
  inr, Outcome, ok, ◌>>◌, map_ok, map_ok-map, >>=-eq-ok, ok-injective, subst, distinct, sorted_by,
}
use policyfuzz.Domain.Vocabulary.{EffectDimension, effect_dimensions}
use policyfuzz.Domain.Rule.{RuleProvenance, Rule, EffectValue, effect_value_eq}
use policyfuzz.Domain.Policy.{PolicyIr}
use policyfuzz.Domain.Facts.{ScenarioFacts}
use policyfuzz.Domain.Intent.{PolicyContract}
use policyfuzz.Domain.Scenario.{Scenario}
use policyfuzz.Evaluation.Predicates.{RuleTrace, rule_matches}
use policyfuzz.Evaluation.Assertions.{evaluate_assertion}
use policyfuzz.Evaluation.Resolution.{
  DimensionResult, typed_resolution, settle, resolve_rules, resolve_dimension, effective,
  open_clauses, applicable,
}
use policyfuzz.Evaluation.Engine.Scenarios.{
  Verdict, EvaluationTrace, ScenarioEvaluation, verdict_of, validate_scenario,
  scored_verdict_requires_assertion, matched_invariants, scenario_assertions,
  scenario_required_dimensions, all_compliance, evaluate_checked,
}

settle-dimension :
    (d : EffectDimension) (required : List EffectDimension) (rules : List Rule)
    (vs : List EffectValue)
    → (settle d required rules vs).dimension ≡ d
unfolding settle
settle-dimension d required rules [] = refl
settle-dimension d required rules (v ∷ []) = refl
settle-dimension d required rules (v ∷ w ∷ vs) = refl

resolve_rules-dimension :
    (d : EffectDimension) (required : List EffectDimension) (rules : List Rule)
    → (resolve_rules d required rules).dimension ≡ d
unfolding resolve_rules
resolve_rules-dimension d required rules =
    settle-dimension d required rules (distinct (effective d rules))

built-dimension :
    (r s : DimensionResult) → (typed_resolution r >> ok r) ≡ ok s → s.dimension ≡ r.dimension
built-dimension r s h =
    let (_, _, e) = >>=-eq-ok (typed_resolution r) _ h in
    ap (λ (x : DimensionResult). x.dimension) (sym (ok-injective r s e))

resolve_dimension-dimension :
    (d : EffectDimension) (policy : PolicyIr) (facts : ScenarioFacts)
    (required : List EffectDimension) (traces : List RuleTrace) (r : DimensionResult)
    → resolve_dimension d policy facts required traces ≡ ok r
    → r.dimension ≡ d
unfolding resolve_dimension resolve_rules
resolve_dimension-dimension d policy facts required traces r h =
    let (unsupported, _, e) =
      >>=-eq-ok (open_clauses d required facts policy.unsupported_clauses) _ h in
    elim (Bool-cases (is_empty unsupported)) [
      | inl supported ↦
          built-dimension _ r (rw supported at e)
          ∙ resolve_rules-dimension d required (applicable d traces policy.rules)
      | inr unresolved ↦ built-dimension _ r (rw unresolved at e)
    ]

-- A report is of an input that failed, as an error without results, or carries the verdict of its
-- results.
abbrev pub IsConsistent : ScenarioEvaluation → Type 0
IsConsistent e =
    ((e.failed_input ≡ true) × (e.verdict ≡ Verdict.error) × (is_empty e.assertion_results ≡ true))
    ⊎ ((e.failed_input ≡ false) × (e.verdict ≡ verdict_of e.assertion_results))

abbrev pub IsReport : ScenarioEvaluation → Type 0
IsReport e = (map (λ d. d.dimension) e.trace.resolved_effects ≡ effect_dimensions) × IsConsistent e

module _ (canonical_sha256 : RuleProvenance → String)
    (payload_hash : EvaluationTrace → String) where
  pub evaluate_checked-IsReport :
      (policy : PolicyIr) (contract : PolicyContract) (scenario : Scenario) (e : ScenarioEvaluation)
      → evaluate_checked canonical_sha256 payload_hash policy contract scenario ≡ ok e
      → IsReport e
  unfolding evaluate_checked
  evaluate_checked-IsReport policy contract scenario e h =
      let (_, _, h1) = >>=-eq-ok (validate_scenario scenario) _ h in
      let (invariants, _, h2) =
        >>=-eq-ok (matched_invariants contract.invariants scenario.facts) _ h1 in
      let (assertions, _, h3) = >>=-eq-ok (scenario_assertions contract scenario) _ h2 in
      let (traces, _, h4) =
        >>=-eq-ok
          (map_ok (λ r. rule_matches r scenario.facts) (sorted_by (λ r. r.rule_id) policy.rules)) _
          h3 in
      let required = scenario_required_dimensions scenario contract invariants in
      let resolve : EffectDimension → Outcome DimensionResult =
        λ d. resolve_dimension d policy scenario.facts required traces in
      let (dimensions, resolved, h5) = >>=-eq-ok (map_ok resolve effect_dimensions) _ h4 in
      let (compliance, _, h6) = >>=-eq-ok (all_compliance dimensions scenario.facts) _ h5 in
      let (results, _, h7) =
        >>=-eq-ok (map_ok (λ a. evaluate_assertion a dimensions compliance) assertions) _ h6 in
      let listed =
        map_ok-map resolve (λ d. d.dimension) (λ d. d)
          (λ d r. resolve_dimension-dimension d policy scenario.facts required traces r)
          effect_dimensions dimensions resolved in
      let (_, _, h8) = >>=-eq-ok (scored_verdict_requires_assertion _) _ h7 in
      subst IsReport (ok-injective _ e h8) (listed, inr (refl, refl))
