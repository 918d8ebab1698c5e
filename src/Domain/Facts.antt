-- ===== src/Domain/Facts.antt =====
-- backend/app/domain/models/scenario.py: `ScenarioFacts`. The `ge=0` bounds are in the type ℕ, the
-- upper bounds are checked by `validate_facts`, as pydantic does on every construction.
use mathlib.Core.Path.{◌≡◌}
use policyfuzz.Prelude.{ℕ, ◌≤◌, ◌+◌, Bool, ◌&&◌, List, map, pos, leb, Outcome, require, ok, arith}
use policyfuzz.Domain.Vocabulary.{
  EmployeeRole, ExpenseCategory, DestinationType, ApprovalRole, role_text, category_text,
  destination_text, approval_text, PredicateField, employee_role, expense_category, amount_minor,
  destination_type, booking_days_before, receipt_present, approval_roles_present,
  prior_same_day_category_spend_minor, daily_category_total_minor,
}
use policyfuzz.Domain.Value.{Value, str, int, bool, frozenset}

pub record ScenarioFacts : Type 0 where
  pub employee_role : EmployeeRole
  pub expense_category : ExpenseCategory
  pub amount_minor : ℕ
  pub destination_type : DestinationType
  pub booking_days_before : ℕ
  pub receipt_present : Bool
  pub approval_roles_present : List ApprovalRole
  pub prior_same_day_category_spend_minor : ℕ

-- `MoneyMinor` and the bound on the booking days
pub record IsInDomain (facts : ScenarioFacts) : Type 0 where
  pub amount : facts.amount_minor ≤ 10_000_000
  pub booking : facts.booking_days_before ≤ 365
  pub prior : facts.prior_same_day_category_spend_minor ≤ 10_000_000

unfoldable pub validate_facts : ScenarioFacts → Outcome (Unit {0})
validate_facts facts =
    require
      (leb facts.amount_minor 10_000_000
        && (leb facts.booking_days_before 365
            && leb facts.prior_same_day_category_spend_minor 10_000_000))
      "facts are outside their domain"

-- `getattr(facts, field)`, with the derived total
abbrev pub fact_value : PredicateField → ScenarioFacts → Value
fact_value employee_role facts = str (role_text facts.employee_role)
fact_value expense_category facts = str (category_text facts.expense_category)
fact_value amount_minor facts = int (pos facts.amount_minor)
fact_value destination_type facts = str (destination_text facts.destination_type)
fact_value booking_days_before facts = int (pos facts.booking_days_before)
fact_value receipt_present facts = bool facts.receipt_present
fact_value approval_roles_present facts = frozenset (map approval_text facts.approval_roles_present)
fact_value prior_same_day_category_spend_minor facts =
    int (pos facts.prior_same_day_category_spend_minor)
fact_value daily_category_total_minor facts =
    int (pos (facts.amount_minor + facts.prior_same_day_category_spend_minor))

pub validate_facts-of_IsInDomain :
    (facts : ScenarioFacts) → IsInDomain facts → validate_facts facts ≡ ok tt
unfolding validate_facts
validate_facts-of_IsInDomain facts h = ground arith
