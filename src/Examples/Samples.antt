-- ===== src/Examples/Samples.antt =====
-- The sample data: a cap on meals, a rule that overrides it for directors, and a scenario.
use policyfuzz.Prelude.{String, ℕ, true, false, List, [], ◌∷◌, none, some, pos, arith}
use policyfuzz.Domain.Vocabulary.{
  EmployeeRole, ExpenseCategory, DestinationType, ApprovalRole, PredicateField, PredicateOperator,
  EffectDimension,
}
use policyfuzz.Domain.Value.{str, int, tuple}
use policyfuzz.Domain.Predicate.{Predicate}
use policyfuzz.Domain.Facts.{ScenarioFacts, IsInDomain}
use policyfuzz.Domain.Rule.{Rule, Effect, RuleProvenance, text_citation, amount, UnsupportedClause}
use policyfuzz.Domain.Policy.{PolicyIr, PolicyKind}
use policyfuzz.Domain.Intent.{
  Assertion, TargetKind, AssertionOperator, AssertionOrigin, PolicyContract,
}
use policyfuzz.Domain.Scenario.{Scenario, ScenarioCategory, ScenarioPartition, ScenarioOrigin}
use policyfuzz.Evaluation.Predicates.{RuleTrace}

abbrev pub digest : String
digest = "7d4e3eec80026719639ed4dba68916eb94c7a49a053e05c8f9578fe4e5a3d7ea"

abbrev citation : RuleProvenance
citation = text_citation "c1" (record {
  page = 1;
  start = 0;
  end = 5;
  quote = "Meals";
  quote_sha256 = digest;
  section = none;
})

abbrev pub meal : Predicate
meal = record {
  field = PredicateField.expense_category;
  operator = PredicateOperator.eq;
  value = str "meal";
}

abbrev pub small : Predicate
small = record {
  field = PredicateField.amount_minor;
  operator = PredicateOperator.lt;
  value = int (pos 9_000);
}

abbrev pub senior : Predicate
senior = record {
  field = PredicateField.employee_role;
  operator = PredicateOperator.is_in;
  value = tuple ("director" ∷ "executive" ∷ []);
}

abbrev cap_of : ℕ → Effect
cap_of n = record { dimension = EffectDimension.claim_cap_minor; value = amount n }

abbrev pub meal_cap : Rule
meal_cap = record {
  description = "Meals are capped.";
  when = meal ∷ small ∷ [];
  effects = cap_of 5_000 ∷ [];
  overrides = [];
  provenance = citation;
  confidence_percent = none;
  rule_id = "meal_cap";
  revision = 0;
}

abbrev pub senior_cap : Rule
senior_cap = record {
  description = "Directors have a higher cap.";
  when = meal ∷ senior ∷ [];
  effects = cap_of 8_000 ∷ [];
  overrides =
      (record { dimension = EffectDimension.claim_cap_minor; target_rule_id = "meal_cap" }) ∷ [];
  provenance = citation;
  confidence_percent = some 90;
  rule_id = "senior_cap";
  revision = 0;
}

abbrev pub policy : PolicyIr
policy = record {
  policy_id = "p1";
  document_sha256 = digest;
  kind = PolicyKind.compiled_baseline;
  rules = meal_cap ∷ senior_cap ∷ [];
  unsupported_clauses = [];
}

abbrev pub travel_clause : UnsupportedClause
travel_clause = record {
  clause_id = "c2";
  span = record {
    page = 1;
    start = 5;
    end = 20;
    quote = "unless on tour";
    quote_sha256 = digest;
    section = none;
  };
  reason_code = "ambiguous_language";
  affected_dimensions = EffectDimension.claim_cap_minor ∷ [];
  when_hint = some (meal ∷ []);
}

-- The policy with a clause that is not supported.
abbrev pub open_policy : PolicyIr
open_policy = record policy { unsupported_clauses = travel_clause ∷ [] }

abbrev pub facts : ScenarioFacts
facts = record {
  employee_role = EmployeeRole.director;
  expense_category = ExpenseCategory.meal;
  amount_minor = 6_000;
  destination_type = DestinationType.domestic;
  booking_days_before = 0;
  receipt_present = true;
  approval_roles_present = ApprovalRole.director ∷ [];
  prior_same_day_category_spend_minor = 1_000;
}

pub facts-IsInDomain : IsInDomain facts
facts-IsInDomain = record { amount = omega arith; booking = omega arith; prior = omega arith }

abbrev pub traces : List RuleTrace
traces =
    record { rule_id = "meal_cap"; matched = true; predicates = [] }
    ∷ record { rule_id = "senior_cap"; matched = true; predicates = [] }
    ∷ []

abbrev pub within_cap : Assertion
within_cap = record {
  assertion_id = "a1";
  target_kind = TargetKind.effect_value;
  dimension = EffectDimension.claim_cap_minor;
  operator = AssertionOperator.eq;
  expected_value = amount 8_000;
  origin = AssertionOrigin.gold;
  source_invariant_id = none;
  gold_label_id = some "g1";
  mechanical_relation_id = none;
}

abbrev pub contract : PolicyContract
contract = record {
  contract_id = "k1";
  required_dimensions = EffectDimension.claim_cap_minor ∷ [];
  invariants = [];
}

abbrev pub scenario : Scenario
scenario = record {
  scenario_id = "s1";
  category = ScenarioCategory.normal;
  origins = ScenarioOrigin.gold ∷ [];
  facts = facts;
  target_rule_ids = [];
  target_invariant_ids = [];
  assertions = within_cap ∷ [];
  protected = false;
  partition = ScenarioPartition.visible;
}
