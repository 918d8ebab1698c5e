-- ===== src/Domain/Predicate.antt =====
-- backend/app/domain/models/policy.py: `Predicate` and its validator `typed_predicate`.
use policyfuzz.Prelude.{
  String, ℕ, Bool, true, false, ◌&&◌, List, [], ◌∷◌, all, elem, string_eq, pos, leb_ℤ, Outcome,
  require, ◌>>◌, Option, none, some, if◌then◌else◌,
}
use policyfuzz.Domain.Vocabulary.{
  PredicateOperator, eq, neq, is_in, not_in, lt, lte, gt, gte, contains, operator_eq,
  PredicateField, employee_role, expense_category, amount_minor, destination_type,
  booking_days_before, receipt_present, approval_roles_present, prior_same_day_category_spend_minor,
  daily_category_total_minor,
}
use policyfuzz.Domain.Value.{Value, str, int, bool, tuple}

pub record Predicate : Type 0 where
  pub field : PredicateField
  pub operator : PredicateOperator
  pub value : Value

-- `_ENUM_DOMAINS` at its three keys
abbrev pub employee_roles : List String
employee_roles = "employee" ∷ "manager" ∷ "director" ∷ "executive" ∷ []

abbrev pub expense_categories : List String
expense_categories = "meal" ∷ "hotel" ∷ "transport" ∷ "airfare" ∷ "incidental" ∷ []

abbrev pub destination_types : List String
destination_types = "domestic" ∷ "international" ∷ []

-- `_INTEGER_MAX.get(field)`
abbrev pub integer_max : PredicateField → Option ℕ
integer_max amount_minor = some 10_000_000
integer_max booking_days_before = some 365
integer_max prior_same_day_category_spend_minor = some 10_000_000
integer_max daily_category_total_minor = some 20_000_000
integer_max _ = none

abbrev pub comparisons : List PredicateOperator
comparisons = eq ∷ neq ∷ lt ∷ lte ∷ gt ∷ gte ∷ []

-- `OPERATORS_BY_FIELD[field]`
abbrev pub operators_by_field : PredicateField → List PredicateOperator
operators_by_field employee_role = eq ∷ neq ∷ is_in ∷ not_in ∷ []
operators_by_field expense_category = eq ∷ neq ∷ is_in ∷ not_in ∷ []
operators_by_field destination_type = eq ∷ neq ∷ is_in ∷ not_in ∷ []
operators_by_field receipt_present = eq ∷ neq ∷ []
operators_by_field approval_roles_present = contains ∷ []
operators_by_field _ = comparisons

-- `type(value) is int and 0 <= value <= maximum`; a `bool` is no `int` here.
abbrev in_range : ℕ → Value → Bool
in_range maximum (int n) = leb_ℤ (pos 0) n && leb_ℤ n (pos maximum)
in_range maximum _ = false

abbrev is_bool : Value → Bool
is_bool (bool b) = true
is_bool _ = false

-- `isinstance(value, str) and value in domain`
abbrev is_member : List String → Value → Bool
is_member domain (str s) = elem domain s
is_member domain _ = false

-- a nonempty tuple from the domain
abbrev is_selection : List String → Value → Bool
is_selection domain (tuple []) = false
is_selection domain (tuple (s ∷ ss)) = all (elem domain) (s ∷ ss)
is_selection domain _ = false

abbrev is_membership : PredicateOperator → Bool
is_membership is_in = true
is_membership not_in = true
is_membership _ = false

abbrev pub approval_roles : List String
approval_roles = "manager" ∷ "director" ∷ "finance" ∷ []

abbrev pub check_integer : ℕ → Value → Outcome (Unit {0})
check_integer maximum value =
    require (in_range maximum value) "integer predicate value is out of domain"

abbrev pub check_enum : List String → PredicateOperator → Value → Outcome (Unit {0})
check_enum domain operator value =
    if is_membership operator
    then require (is_selection domain value)
        "membership requires a nonempty tuple from the field domain"
    else require (is_member domain value) "value is outside the field domain"

-- The part of the validator behind the test of the operator: the branch is chosen by the field.
unfoldable pub check_value : PredicateField → PredicateOperator → Value → Outcome (Unit {0})
check_value amount_minor operator value = check_integer 10_000_000 value
check_value booking_days_before operator value = check_integer 365 value
check_value prior_same_day_category_spend_minor operator value = check_integer 10_000_000 value
check_value daily_category_total_minor operator value = check_integer 20_000_000 value
check_value receipt_present operator value =
    require (is_bool value) "receipt predicate requires a Boolean"
check_value approval_roles_present operator value =
    require (is_member approval_roles value) "approval predicate requires a supported approval role"
check_value employee_role operator value = check_enum employee_roles operator value
check_value expense_category operator value = check_enum expense_categories operator value
check_value destination_type operator value = check_enum destination_types operator value

unfoldable pub typed_predicate : Predicate → Outcome (Unit {0})
unfolding check_value
typed_predicate p =
    require (elem (operators_by_field p.field) p.operator) "operator is invalid for this field"
    >> check_value p.field p.operator p.value
