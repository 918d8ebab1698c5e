-- ===== src/Evaluation/Predicates/Traces.antt =====
-- backend/app/features/evaluation/predicates.py: traces of predicates over the facts of a scenario.
use policyfuzz.Prelude.{String, Bool, List, all, Outcome, ok, ◌>>=◌, ◌>>◌, map_ok}
use policyfuzz.Domain.Value.{apply_operator}
use policyfuzz.Domain.Predicate.{Predicate, typed_predicate}
use policyfuzz.Domain.Rule.{Rule}
use policyfuzz.Domain.Facts.{ScenarioFacts, validate_facts, fact_value}

pub record PredicateTrace : Type 0 where
  pub matched : Bool

pub record RuleTrace : Type 0 where
  pub rule_id : String
  pub matched : Bool
  pub predicates : List PredicateTrace

abbrev trace : Bool → PredicateTrace
trace b = record { matched = b }

unfoldable pub evaluate_predicate : Predicate → ScenarioFacts → Outcome PredicateTrace
evaluate_predicate predicate facts = do
  typed_predicate predicate
  validate_facts facts
  matched ← apply_operator predicate.operator (fact_value predicate.field facts) predicate.value
  ok (trace matched)

unfoldable pub evaluate_conditions : List Predicate → ScenarioFacts → Outcome (List PredicateTrace)
unfolding evaluate_predicate
evaluate_conditions predicates facts =
    map_ok (λ predicate. evaluate_predicate predicate facts) predicates

-- `all(p.matched for p in traces)`
abbrev pub all_matched : List PredicateTrace → Bool
all_matched traces = all (λ p. p.matched) traces

unfoldable pub rule_matches : Rule → ScenarioFacts → Outcome RuleTrace
unfolding evaluate_conditions
rule_matches rule facts = do
  predicates ← evaluate_conditions rule.when facts
  ok (record { rule_id = rule.rule_id; matched = all_matched predicates; predicates = predicates })
