-- ===== src/Evaluation/Predicates/Totality.antt =====
-- A validated predicate never raises on facts in their domain, and its trace is the answer of its
-- operator.
use mathlib.Core.Path.{◌≡◌}
use policyfuzz.Prelude.{
  decide, String, ℕ, Bool, List, [], ◌∷◌, elem, string_eq, pos, ok, refl, arith, map, map_ok-of_ok,
  ◌>>◌, All, All-map, require, decide,
}
use policyfuzz.Domain.Vocabulary.{
  PredicateOperator, eq, neq, is_in, not_in, lt, lte, gt, gte, contains, operator_eq,
  PredicateOperator-discrete, PredicateField, employee_role, expense_category, amount_minor,
  destination_type, booking_days_before, receipt_present, approval_roles_present,
  prior_same_day_category_spend_minor, daily_category_total_minor,
}
use policyfuzz.Domain.Value.{Value, str, int, bool, tuple, frozenset, apply_operator}
use policyfuzz.Domain.Predicate.{
  Predicate, typed_predicate, comparisons, check_integer, check_enum, employee_roles,
  expense_categories, destination_types,
}
use policyfuzz.Domain.Facts.{ScenarioFacts, IsInDomain, fact_value, validate_facts-of_IsInDomain}
use policyfuzz.Evaluation.Predicates.Traces.{evaluate_predicate, evaluate_conditions}
use policyfuzz.Evaluation.Predicates.Kinds.{
  Kind, integer, enumeration, flag, approvals, kind, HasKind, IsTyped, holds, fact_value-HasKind,
}

apply-integer :
    (m : ℕ) (op : PredicateOperator) (a v : Value)
    → HasKind (integer m) a
    → IsTyped (integer m) op v
    → apply_operator op a v ≡ ok (holds op a v)
apply-integer m op (int (pos n)) (int (pos c)) h t = ground arith
apply-integer m op (int (pos n)) _ h t = absurd t
apply-integer m op _ v h t = absurd h

apply-enumeration :
    (d : List String) (op : PredicateOperator) (a v : Value)
    → HasKind (enumeration d) a
    → IsTyped (enumeration d) op v
    → apply_operator op a v ≡ ok (holds op a v)
apply-enumeration d eq (str s) v h t = refl
apply-enumeration d neq (str s) v h t = refl
apply-enumeration d is_in (str s) (tuple ss) h t = refl
apply-enumeration d not_in (str s) (tuple ss) h t = refl
apply-enumeration d op (str s) v h t = absurd t
apply-enumeration d op _ v h t = absurd h

pub apply-ok :
    (k : Kind) (op : PredicateOperator) (a v : Value)
    → HasKind k a
    → IsTyped k op v
    → apply_operator op a v ≡ ok (holds op a v)
apply-ok (integer m) op a v h t = apply-integer m op a v h t
apply-ok (enumeration d) op a v h t = apply-enumeration d op a v h t
apply-ok flag eq (bool b) v h t = refl
apply-ok flag neq (bool b) v h t = refl
apply-ok approvals contains (frozenset ss) (str s) h t = refl
apply-ok flag op (bool b) v h t = absurd t
apply-ok flag op _ v h t = absurd h
apply-ok approvals op (frozenset ss) v h t = absurd t
apply-ok approvals op _ v h t = absurd h

-- What the two tests of the validator establish, for the fields of each shape.
integer-IsTyped :
    (m : ℕ) (op : PredicateOperator) (v : Value)
    → (require (elem comparisons op) "operator is invalid for this field" >> check_integer m v)
      ≡ ok tt
    → IsTyped (integer m) op v
unfolding PredicateOperator-discrete decide
integer-IsTyped m eq (int (pos c)) h = ground arith
integer-IsTyped m neq (int (pos c)) h = ground arith
integer-IsTyped m lt (int (pos c)) h = ground arith
integer-IsTyped m lte (int (pos c)) h = ground arith
integer-IsTyped m gt (int (pos c)) h = ground arith
integer-IsTyped m gte (int (pos c)) h = ground arith
integer-IsTyped m eq _ h = cc
integer-IsTyped m _ _ h = cc

abbrev choices : List PredicateOperator
choices = eq ∷ neq ∷ is_in ∷ not_in ∷ []

enumeration-IsTyped :
    (d : List String) (op : PredicateOperator) (v : Value)
    → (require (elem choices op) "operator is invalid for this field" >> check_enum d op v) ≡ ok tt
    → IsTyped (enumeration d) op v
unfolding PredicateOperator-discrete decide
enumeration-IsTyped d eq (str s) h = ground arith
enumeration-IsTyped d neq (str s) h = ground arith
enumeration-IsTyped d is_in (tuple (s ∷ ss)) h = ground arith
enumeration-IsTyped d not_in (tuple (s ∷ ss)) h = ground arith
enumeration-IsTyped d eq _ h = cc
enumeration-IsTyped d _ _ h = cc

IsTyped_lem :
    (f : PredicateField) (op : PredicateOperator) (v : Value)
    → typed_predicate (record { field = f; operator = op; value = v }) ≡ ok tt
    → IsTyped (kind f) op v
unfolding typed_predicate PredicateOperator-discrete decide
IsTyped_lem amount_minor op v h = integer-IsTyped _ op v h
IsTyped_lem booking_days_before op v h = integer-IsTyped _ op v h
IsTyped_lem prior_same_day_category_spend_minor op v h = integer-IsTyped _ op v h
IsTyped_lem daily_category_total_minor op v h = integer-IsTyped _ op v h
IsTyped_lem employee_role op v h = enumeration-IsTyped employee_roles op v h
IsTyped_lem expense_category op v h = enumeration-IsTyped expense_categories op v h
IsTyped_lem destination_type op v h = enumeration-IsTyped destination_types op v h
IsTyped_lem receipt_present eq (bool b) h = tt
IsTyped_lem receipt_present neq (bool b) h = tt
IsTyped_lem receipt_present eq _ h = cc
IsTyped_lem receipt_present _ _ h = cc
IsTyped_lem approval_roles_present contains (str s) h = ground arith
IsTyped_lem approval_roles_present contains _ h = cc
IsTyped_lem approval_roles_present _ _ h = cc

abbrev pub IsValidated : Predicate → Type 0
IsValidated p = typed_predicate p ≡ ok tt

-- The answer that a validated predicate gives.
abbrev pub matches : Predicate → ScenarioFacts → Bool
matches p facts = holds p.operator (fact_value p.field facts) p.value

pub IsValidated-IsTyped :
    (p : Predicate) → IsValidated p → IsTyped (kind p.field) p.operator p.value
IsValidated-IsTyped p h = IsTyped_lem p.field p.operator p.value h

pub apply_operator-ok :
    (p : Predicate) (a : Value)
    → IsValidated p
    → HasKind (kind p.field) a
    → apply_operator p.operator a p.value ≡ ok (holds p.operator a p.value)
apply_operator-ok p a h k = apply-ok (kind p.field) p.operator a p.value k (IsValidated-IsTyped p h)

pub evaluate_predicate-ok :
    (p : Predicate) (facts : ScenarioFacts)
    → IsValidated p
    → IsInDomain facts
    → evaluate_predicate p facts ≡ ok (record { matched = matches p facts })
unfolding evaluate_predicate
evaluate_predicate-ok p facts h d = rw (
  h,
  validate_facts-of_IsInDomain facts d,
  apply_operator-ok p (fact_value p.field facts) h (fact_value-HasKind p.field facts d),
)

-- Evaluating validated conditions on facts in their domain returns, with one trace for each
-- predicate in order, which is the answer of its operator.
pub evaluate_conditions-ok :
    (ps : List Predicate) (facts : ScenarioFacts)
    → All IsValidated ps
    → IsInDomain facts
    → evaluate_conditions ps facts ≡ ok (map (λ p. record { matched = matches p facts }) ps)
unfolding evaluate_conditions
evaluate_conditions-ok ps facts h d =
    map_ok-of_ok _ _ ps (All-map (λ p v. evaluate_predicate-ok p facts v d) ps h)
