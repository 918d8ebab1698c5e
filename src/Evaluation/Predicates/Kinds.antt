-- ===== src/Evaluation/Predicates/Kinds.antt =====
-- The kinds of values that the fields hold, and what a validated predicate looks like.
use mathlib.Core.Path.{◌≡◌}
use policyfuzz.Prelude.{
  String, ℕ, ◌≤◌, Bool, true, false, List, ◌∷◌, elem, string_eq, pos, ok, raised, refl, arith, all,
}
use policyfuzz.Domain.Vocabulary.{
  PredicateOperator, eq, neq, is_in, not_in, contains, operator_eq, EmployeeRole, ExpenseCategory,
  DestinationType, role_text, category_text, destination_text, PredicateField, employee_role,
  expense_category, amount_minor, destination_type, booking_days_before, receipt_present,
  approval_roles_present, prior_same_day_category_spend_minor, daily_category_total_minor,
}
use policyfuzz.Domain.Value.{Value, str, int, bool, tuple, frozenset, apply_operator}
use policyfuzz.Domain.Predicate.{
  employee_roles, expense_categories, destination_types, approval_roles,
}
use policyfuzz.Domain.Facts.{ScenarioFacts, IsInDomain, fact_value}

pub data Kind : Type 0 where
  integer : ℕ → Kind
  enumeration : List String → Kind
  flag approvals : Kind

abbrev pub kind : PredicateField → Kind
kind employee_role = enumeration employee_roles
kind expense_category = enumeration expense_categories
kind destination_type = enumeration destination_types
kind amount_minor = integer 10_000_000
kind booking_days_before = integer 365
kind prior_same_day_category_spend_minor = integer 10_000_000
kind daily_category_total_minor = integer 20_000_000
kind receipt_present = flag
kind approval_roles_present = approvals

-- `a` is a value that a field of the kind can hold.
abbrev pub HasKind : Kind → Value → Type 0
HasKind (integer m) (int (pos n)) = n ≤ m
HasKind (enumeration d) (str s) = elem d s ≡ true
HasKind flag (bool b) = Unit
HasKind approvals (frozenset ss) = Unit
HasKind _ _ = ⊥

abbrev pub is_comparison : PredicateOperator → Bool
is_comparison is_in = false
is_comparison not_in = false
is_comparison contains = false
is_comparison _ = true

-- An operator and a value that fit together at a field of the kind.
abbrev pub IsTyped : Kind → PredicateOperator → Value → Type 0
IsTyped (integer m) op (int (pos c)) = (is_comparison op ≡ true) × (c ≤ m)
IsTyped (enumeration d) eq (str s) = elem d s ≡ true
IsTyped (enumeration d) neq (str s) = elem d s ≡ true
IsTyped (enumeration d) is_in (tuple (s ∷ ss)) = all (elem d) (s ∷ ss) ≡ true
IsTyped (enumeration d) not_in (tuple (s ∷ ss)) = all (elem d) (s ∷ ss) ≡ true
IsTyped flag eq (bool b) = Unit
IsTyped flag neq (bool b) = Unit
IsTyped approvals contains (str s) = elem approval_roles s ≡ true
IsTyped _ _ _ = ⊥

-- The answer of an operator that does not raise.
abbrev pub holds : PredicateOperator → Value → Value → Bool
holds op actual expected = elim (apply_operator op actual expected) [ ok b ↦ b | raised e ↦ false ]

pub fact_value-HasKind :
    (f : PredicateField) (facts : ScenarioFacts)
    → IsInDomain facts
    → HasKind (kind f) (fact_value f facts)
fact_value-HasKind employee_role facts h = role (facts.employee_role)
  where
    role : (r : EmployeeRole) → HasKind (kind employee_role) (str (role_text r))
    role EmployeeRole.employee = refl
    role EmployeeRole.manager = refl
    role EmployeeRole.director = refl
    role EmployeeRole.executive = refl
fact_value-HasKind expense_category facts h = category (facts.expense_category)
  where
    category : (c : ExpenseCategory) → HasKind (kind expense_category) (str (category_text c))
    category ExpenseCategory.meal = refl
    category ExpenseCategory.hotel = refl
    category ExpenseCategory.transport = refl
    category ExpenseCategory.airfare = refl
    category ExpenseCategory.incidental = refl
fact_value-HasKind destination_type facts h = destination (facts.destination_type)
  where
    destination : (d : DestinationType) → HasKind (kind destination_type) (str (destination_text d))
    destination DestinationType.domestic = refl
    destination DestinationType.international = refl
fact_value-HasKind amount_minor facts h = h.amount
fact_value-HasKind booking_days_before facts h = h.booking
fact_value-HasKind prior_same_day_category_spend_minor facts h = h.prior
fact_value-HasKind daily_category_total_minor facts h = omega arith
fact_value-HasKind receipt_present facts h = tt
fact_value-HasKind approval_roles_present facts h = tt
