-- ===== src/Examples/Rules.antt =====
-- The theorems on conditions, policies and resolution at the sample policy.
use policyfuzz.Prelude.{
  some, String, ◌≡◌, ◌≢◌, ◌↔◌, ◌⊎◌, refl, Bool, true, List, [], ◌∷◌, All, elem, map, ok, string_eq,
  decide,
}
use policyfuzz.Domain.Vocabulary.{
  EffectDimension, EffectDimension-discrete, PredicateOperator-discrete, EffectStatus,
}
use policyfuzz.Domain.Predicate.{Predicate, typed_predicate}
use policyfuzz.Domain.Facts.{ScenarioFacts, IsInDomain}
use policyfuzz.Domain.Rule.{text, validate_effect_value}
use policyfuzz.Domain.Policy.{valid_rule_set, graph, rule_ids, find_rule}
use policyfuzz.Domain.Policy.Validity.{IsRuleSet, valid_rule_set-exact, valid_rule_set-IsOrdered}
use policyfuzz.Domain.Graph.{visit, visit_each, visit_all, IsOrdered}
use policyfuzz.Evaluation.Predicates.{
  IsValidated, evaluate_conditions, evaluate_conditions-ok, matches,
}
use policyfuzz.Evaluation.Conditions.{conditions_satisfiable, conditions_unrestricted}
use policyfuzz.Evaluation.Conditions.Results.{NoDailyTotal}
use policyfuzz.Evaluation.Conditions.Satisfiable.{Matches, conditions_satisfiable-exact}
use policyfuzz.Evaluation.Conditions.Unrestricted.{conditions_unrestricted-exact}
use policyfuzz.Evaluation.Compliance.{
  derive_compliance, derive_compliance-exact, IsMet, compliance_status,
}
use policyfuzz.Evaluation.Resolution.{applicable, effective, resolve_dimension, DimensionResult}
use policyfuzz.Evaluation.Resolution.Unsupported.{IsOpened}
use policyfuzz.Evaluation.Resolution.Settled.{
  IsDecided, resolve_dimension-IsDecided, resolve_dimension-supplied,
}
use policyfuzz.Evaluation.Resolution.Survivors.{effective-nonempty}
use policyfuzz.Evaluation.RuleValidation.{validate_rule_set}
use policyfuzz.Evaluation.RuleValidation.Exact.{
  CanFire, IsModel, validate_model-exact, validate_rule_set-exact,
}
use policyfuzz.Examples.Samples.{
  meal, small, senior, policy, open_policy, facts, facts-IsInDomain, traces,
}
use policyfuzz.Examples.Accepted.{rules_ok, open_policy_ok}

conditions : List Predicate
conditions = meal ∷ small ∷ senior ∷ []

conditions-IsValidated : All IsValidated conditions
unfolding conditions typed_predicate PredicateOperator-discrete decide
conditions-IsValidated = (refl, (refl, (refl, tt)))

conditions-NoDailyTotal : NoDailyTotal conditions
unfolding conditions
conditions-NoDailyTotal = ((λ e. cc), ((λ e. cc), ((λ e. cc), tt)))

conditions_satisfiable_example :
    (b : Bool) × (conditions_satisfiable conditions ≡ ok b)
    × ((b ≡ true) ↔ ((f : ScenarioFacts) × IsInDomain f × Matches conditions f))
conditions_satisfiable_example =
    conditions_satisfiable-exact conditions conditions-IsValidated conditions-NoDailyTotal

conditions_unrestricted_example :
    (b : Bool) × (conditions_unrestricted conditions ≡ ok b)
    × ((b ≡ true) ↔ ((f : ScenarioFacts) → IsInDomain f → Matches conditions f))
conditions_unrestricted_example = conditions_unrestricted-exact conditions conditions-IsValidated

evaluate_conditions_example :
    evaluate_conditions conditions facts
    ≡ ok (map (λ p. record { matched = matches p facts }) conditions)
evaluate_conditions_example =
    evaluate_conditions-ok conditions facts conditions-IsValidated facts-IsInDomain

accepted : valid_rule_set policy ≡ ok tt
unfolding valid_rule_set graph find_rule visit visit_each visit_all EffectDimension-discrete decide
accepted = refl

pub policy-IsRuleSet : IsRuleSet policy
policy-IsRuleSet = (valid_rule_set-exact policy).0 accepted

valid_rule_set_example : (valid_rule_set policy ≡ ok tt) ↔ IsRuleSet policy
valid_rule_set_example = valid_rule_set-exact policy

ordered_example :
    (order : List String) × IsOrdered (graph policy.rules) order
    × ((a : String) → elem (rule_ids policy.rules) a ≡ true → elem order a ≡ true)
ordered_example = valid_rule_set-IsOrdered policy accepted

validate_rule_set_example :
    (validate_rule_set policy ≡ ok tt) ↔ (IsModel policy × All CanFire policy.rules)
validate_rule_set_example = validate_rule_set-exact policy

some_applicable : applicable EffectDimension.claim_cap_minor traces policy.rules ≢ []
unfolding EffectDimension-discrete decide
some_applicable e = cc

effective_example :
    effective EffectDimension.claim_cap_minor
      (applicable EffectDimension.claim_cap_minor traces policy.rules)
    ≢ []
effective_example =
    effective-nonempty EffectDimension.claim_cap_minor policy traces policy-IsRuleSet
      some_applicable

policy-IsModel : IsModel policy
policy-IsModel = ((validate_rule_set-exact policy).0 rules_ok).0

open_policy-IsModel : IsModel open_policy
open_policy-IsModel = (validate_model-exact open_policy).0 open_policy_ok

resolve_dimension_example :
    (r : DimensionResult) × (resolve_dimension EffectDimension.claim_cap_minor open_policy facts []
        traces
      ≡ ok r)
    × IsDecided EffectDimension.claim_cap_minor [] facts open_policy traces r
resolve_dimension_example =
    resolve_dimension-IsDecided EffectDimension.claim_cap_minor [] facts open_policy traces
      open_policy-IsModel.ruled open_policy-IsModel.claused facts-IsInDomain

supplied_example :
    (r : DimensionResult) × (resolve_dimension EffectDimension.claim_cap_minor policy facts []
        traces
      ≡ ok r)
    × ((((id : String) × IsOpened EffectDimension.claim_cap_minor [] facts [] id)
          × (r.status ≡ EffectStatus.inconclusive))
        ⊎ (((id : String) → ¬ IsOpened EffectDimension.claim_cap_minor [] facts [] id)
            × ((r.status ≡ EffectStatus.value) ⊎ (r.status ≡ EffectStatus.conflict))))
supplied_example =
    resolve_dimension-supplied EffectDimension.claim_cap_minor [] facts policy traces policy-IsModel
      facts-IsInDomain some_applicable

requirement : validate_effect_value EffectDimension.approval_requirement (text "manager") ≡ ok tt
unfolding validate_effect_value
requirement = refl

derive_compliance_example :
    (compliant : Bool) × (derive_compliance EffectDimension.approval_requirement
        (text "manager")
        facts
      ≡ ok (
          some (record {
            dimension = EffectDimension.approval_requirement;
            status = compliance_status compliant;
          })))
    × ((compliant ≡ true) ↔ IsMet EffectDimension.approval_requirement (text "manager") facts)
derive_compliance_example =
    derive_compliance-exact EffectDimension.approval_requirement (text "manager") facts (λ e. cc)
      requirement facts-IsInDomain
