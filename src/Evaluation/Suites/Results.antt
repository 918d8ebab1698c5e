-- ===== src/Evaluation/Suites/Results.antt =====
-- What `evaluate_scenario` returns to the evaluation of a suite.
use policyfuzz.Prelude.{
  String, ◌≡◌, refl, subst, false, List, string_eq, inl, inr, Exception, value_error,
  rule_set_validation_error, patch_validation_error, type_error, key_error, recursion_error,
  stop_iteration, Outcome-cases, ok, >>=-eq-ok, ok-injective, map_ok, sorted_by,
}
use policyfuzz.Domain.Vocabulary.{effect_dimensions}
use policyfuzz.Domain.Rule.{RuleProvenance}
use policyfuzz.Domain.Policy.{PolicyIr}
use policyfuzz.Domain.Intent.{Invariant, PolicyContract}
use policyfuzz.Domain.Scenario.{Scenario}
use policyfuzz.Evaluation.Predicates.{rule_matches}
use policyfuzz.Evaluation.Resolution.{resolve_dimension}
use policyfuzz.Evaluation.Assertions.{evaluate_assertion}
use policyfuzz.Evaluation.Engine.{
  EvaluationTrace, ScenarioEvaluation, evaluate_checked, evaluate_scenario, validate_scenario,
  matched_invariants, scenario_assertions, scenario_required_dimensions, all_compliance,
  scored_verdict_requires_assertion, failed, handled,
}
use policyfuzz.Evaluation.Engine.Returns.{evaluate_scenario-IsReport}
use policyfuzz.Evaluation.Suites.Traces.{IsTraced, traced_rules}
use policyfuzz.Evaluation.Suites.Defs.{is_error}

-- The result is of the scenario, its trace names parts of the policy, and unless it is an error the
-- invariants that match the scenario were computed.
pub record IsResult (policy : PolicyIr) (contract : PolicyContract) (scenario : Scenario)
    (r : ScenarioEvaluation) : Type 0 where
  pub named : r.scenario_id ≡ scenario.scenario_id
  pub traced : IsTraced policy.rules r.trace
  pub matched :
      is_error r.verdict ≡ false
      → (is : List Invariant) × (matched_invariants contract.invariants scenario.facts ≡ ok is)

module _ (canonical_sha256 : RuleProvenance → String) (payload_hash : EvaluationTrace → String)
    (policy : PolicyIr) (contract : PolicyContract) (scenario : Scenario) where
  evaluate_checked-IsResult :
      (e : ScenarioEvaluation)
      → evaluate_checked canonical_sha256 payload_hash policy contract scenario ≡ ok e
      → IsResult policy contract scenario e
  unfolding evaluate_checked
  evaluate_checked-IsResult e h =
      let (_, _, h1) = >>=-eq-ok (validate_scenario scenario) _ h in
      let (invariants, found, h2) =
        >>=-eq-ok (matched_invariants contract.invariants scenario.facts) _ h1 in
      let (assertions, _, h3) = >>=-eq-ok (scenario_assertions contract scenario) _ h2 in
      let (traces, traced, h4) =
        >>=-eq-ok
          (map_ok (λ r. rule_matches r scenario.facts) (sorted_by (λ r. r.rule_id) policy.rules)) _
          h3 in
      let required = scenario_required_dimensions scenario contract invariants in
      let (dimensions, _, h5) =
        >>=-eq-ok
          (map_ok (λ d. resolve_dimension d policy scenario.facts required traces)
            effect_dimensions)
          _ h4 in
      let (compliance, _, h6) = >>=-eq-ok (all_compliance dimensions scenario.facts) _ h5 in
      let (results, _, h7) =
        >>=-eq-ok (map_ok (λ a. evaluate_assertion a dimensions compliance) assertions) _ h6 in
      let (_, _, h8) = >>=-eq-ok (scored_verdict_requires_assertion _) _ h7 in
      let (fired, branched) = traced_rules policy.rules scenario.facts traces traced in
      subst (IsResult policy contract scenario) (ok-injective _ e h8) (record {
        named = refl;
        traced = record { fired = fired; branched = branched };
        matched = λ _. (invariants, found);
      })

  failed-IsResult :
      IsResult policy contract scenario (failed canonical_sha256 payload_hash scenario)
  failed-IsResult = record {
    named = refl;
    traced = record { fired = refl; branched = refl };
    matched = λ h. cc;
  }

  pub evaluate_scenario-IsResult :
      (e : ScenarioEvaluation)
      → evaluate_scenario canonical_sha256 payload_hash policy contract scenario ≡ ok e
      → IsResult policy contract scenario e
  unfolding evaluate_scenario
  evaluate_scenario-IsResult e h =
      elim (Outcome-cases
        (evaluate_checked canonical_sha256 payload_hash policy contract scenario)) [
          | inl (r, found) ↦
              let same : ok r ≡ ok e = rw (found, evaluate_scenario) at h in
              subst (IsResult policy contract scenario) (ok-injective r e same)
                (evaluate_checked-IsResult r found)
          | inr (x, error) ↦
              let same : handled canonical_sha256 payload_hash x
                    (failed canonical_sha256 payload_hash scenario)
                  ≡ ok e =
                rw (error, evaluate_scenario) at h in
              subst (IsResult policy contract scenario) (from_handler x same) failed-IsResult
        ]
    where
      from_handler :
          (x : Exception)
          → handled canonical_sha256 payload_hash x (failed canonical_sha256 payload_hash scenario)
            ≡ ok e
          → failed canonical_sha256 payload_hash scenario ≡ e
      from_handler key_error h = cc
      from_handler recursion_error h = cc
      from_handler stop_iteration h = cc
      from_handler type_error h = ok-injective _ e h
      from_handler (value_error m) h = ok-injective _ e h
      from_handler (rule_set_validation_error m) h = ok-injective _ e h
      from_handler (patch_validation_error m) h = ok-injective _ e h

  pub evaluate_scenario-returns :
      (e : ScenarioEvaluation) × (evaluate_scenario canonical_sha256 payload_hash policy contract
          scenario
        ≡ ok e)
      × IsResult policy contract scenario e
  evaluate_scenario-returns =
      let (e, returned, _) =
        evaluate_scenario-IsReport canonical_sha256 payload_hash policy contract scenario in
      (e, returned, evaluate_scenario-IsResult e returned)
