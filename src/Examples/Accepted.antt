-- ===== src/Examples/Accepted.antt =====
-- The validators at the sample policies.
use policyfuzz.Prelude.{◌≡◌, ◌≢◌, refl, [], ok, string_eq, decide}
use policyfuzz.Domain.Vocabulary.{
  EffectDimension-discrete, PredicateField-discrete, PredicateOperator-discrete,
}
use policyfuzz.Domain.Predicate.{typed_predicate}
use policyfuzz.Domain.Rule.{validate_effect_value, executable_conditions}
use policyfuzz.Domain.Digest.{hex_text}
use policyfuzz.Domain.Drafts.{validate_rule, validate_clause, validate_span, validate_provenance}
use policyfuzz.Domain.Graph.{visit, visit_all, visit_each}
use policyfuzz.Domain.Policy.{valid_rule_set, graph, find_rule}
use policyfuzz.Evaluation.Predicates.{evaluate_predicate}
use policyfuzz.Evaluation.Conditions.{conditions_satisfiable}
use policyfuzz.Evaluation.RuleValidation.{validate_rule_set, validate_model}
use policyfuzz.Examples.Samples.{policy, open_policy, travel_clause, meal_cap}

pub rules_ok : validate_rule_set policy ≡ ok tt
unfolding hex_text validate_rule_set validate_rule validate_clause validate_span validate_provenance
    valid_rule_set typed_predicate executable_conditions validate_effect_value graph find_rule visit
    visit_all visit_each conditions_satisfiable evaluate_predicate EffectDimension-discrete
    PredicateField-discrete PredicateOperator-discrete decide
rules_ok = refl

pub open_policy_ok : validate_model open_policy ≡ ok tt
unfolding hex_text validate_rule validate_clause validate_span validate_provenance valid_rule_set
    typed_predicate executable_conditions validate_effect_value graph find_rule visit visit_all
    visit_each EffectDimension-discrete PredicateField-discrete PredicateOperator-discrete decide
open_policy_ok = refl

-- A rule without effects and a clause without dimensions are refused.
effectless : validate_rule (record meal_cap { effects = [] }) ≢ ok tt
unfolding validate_rule typed_predicate PredicateOperator-discrete decide
effectless e = cc

unaffecting : validate_clause (record travel_clause { affected_dimensions = [] }) ≢ ok tt
unfolding hex_text validate_clause validate_span
unaffecting e = cc
