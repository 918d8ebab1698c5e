-- ===== src/Evaluation/Engine/Caught.antt =====
-- Which exceptions the handler of `evaluate_scenario` catches, and that parts raise no others.
use policyfuzz.Prelude.{
  String, ◌≡◌, refl, Bool, true, false, List, [], ◌∷◌, Exception, value_error,
  rule_set_validation_error, patch_validation_error, type_error, key_error, recursion_error,
  stop_iteration, Outcome, ok, raised, ◌>>=◌, require, map_ok, each_ok,
}
use policyfuzz.Domain.Vocabulary.{
  EffectDimension, eligibility, receipt_requirement, approval_requirement, claim_cap_minor,
  daily_category_cap_minor, PredicateField, employee_role, expense_category, destination_type,
  PredicateOperator,
}
use policyfuzz.Domain.Value.{
  Value, str, int, bool, tuple, frozenset, apply_operator, py_lt, py_le, py_in,
}
use policyfuzz.Domain.Predicate.{
  Predicate, typed_predicate, check_value, check_enum, employee_roles, expense_categories,
  destination_types,
}
use policyfuzz.Domain.Rule.{Rule, EffectValue, validate_effect_value}
use policyfuzz.Domain.Facts.{ScenarioFacts, validate_facts, fact_value}
use policyfuzz.Domain.Intent.{
  Assertion, TargetKind, typed_assertion, independent_assertion, check_target,
}
use policyfuzz.Evaluation.Predicates.{evaluate_predicate, evaluate_conditions, rule_matches}

abbrev pub is_caught : Exception → Bool
is_caught (value_error m) = true
is_caught (rule_set_validation_error m) = true
is_caught (patch_validation_error m) = true
is_caught type_error = true
is_caught recursion_error = false
is_caught key_error = false
is_caught stop_iteration = false

-- The call returns or raises what is caught.
abbrev pub Caught {ℓ} : {A : Type ℓ} → Outcome A → Type 0
Caught (ok a) = Unit
Caught (raised e) = is_caught e ≡ true

pub Caught->>= {ℓ κ} :
    {A : Type ℓ} {B : Type κ} (m : Outcome A) (f : A → Outcome B)
    → Caught m
    → ((a : A) → m ≡ ok a → Caught (f a))
    → Caught (m >>= f)
Caught->>= (ok a) f c k = k a refl
Caught->>= (raised e) f c k = c

pub Caught-require : (b : Bool) (message : String) → Caught (require b message)
Caught-require true message = tt
Caught-require false message = refl

pub Caught-map_ok {ℓ κ} :
    {A : Type ℓ} {B : Type κ} (f : A → Outcome B) (xs : List A)
    → ((x : A) → Caught (f x))
    → Caught (map_ok f xs)
Caught-map_ok f [] c = tt
Caught-map_ok f (x ∷ xs) c =
    Caught->>= (f x) _ (c x) (λ y _. Caught->>= (map_ok f xs) _ (Caught-map_ok f xs c) (λ ys _. tt))

pub Caught-each_ok {ℓ} :
    {A : Type ℓ} (f : A → Outcome (Unit {0})) (xs : List A)
    → ((x : A) → Caught (f x))
    → Caught (each_ok f xs)
Caught-each_ok f [] c = tt
Caught-each_ok f (x ∷ xs) c = Caught->>= (f x) _ (c x) (λ _ _. Caught-each_ok f xs c)

Caught-py_lt : (a b : Value) → Caught (py_lt a b)
Caught-py_lt (str a) (str b) = tt
Caught-py_lt (int a) (int b) = tt
Caught-py_lt (int a) (bool b) = tt
Caught-py_lt (bool a) (int b) = tt
Caught-py_lt (bool a) (bool b) = tt
Caught-py_lt (tuple a) (tuple b) = tt
Caught-py_lt (frozenset a) (frozenset b) = tt
Caught-py_lt _ _ = refl

Caught-py_le : (a b : Value) → Caught (py_le a b)
Caught-py_le (str a) (str b) = tt
Caught-py_le (int a) (int b) = tt
Caught-py_le (int a) (bool b) = tt
Caught-py_le (bool a) (int b) = tt
Caught-py_le (bool a) (bool b) = tt
Caught-py_le (tuple a) (tuple b) = tt
Caught-py_le (frozenset a) (frozenset b) = tt
Caught-py_le _ _ = refl

Caught-py_in : (a b : Value) → Caught (py_in a b)
Caught-py_in (str a) (str b) = tt
Caught-py_in a (tuple bs) = tt
Caught-py_in a (frozenset bs) = tt
Caught-py_in _ _ = refl

pub Caught-apply_operator : (op : PredicateOperator) (a b : Value) → Caught (apply_operator op a b)
Caught-apply_operator PredicateOperator.eq a b = tt
Caught-apply_operator PredicateOperator.neq a b = tt
Caught-apply_operator PredicateOperator.lt a b = Caught-py_lt a b
Caught-apply_operator PredicateOperator.lte a b = Caught-py_le a b
Caught-apply_operator PredicateOperator.gt a b = Caught-py_lt b a
Caught-apply_operator PredicateOperator.gte a b = Caught-py_le b a
Caught-apply_operator PredicateOperator.is_in a b = Caught-py_in a b
Caught-apply_operator PredicateOperator.not_in a b =
    Caught->>= (py_in a b) _ (Caught-py_in a b) (λ _ _. tt)
Caught-apply_operator PredicateOperator.contains a b = Caught-py_in b a

Caught-check_enum :
    (domain : List String) (op : PredicateOperator) (v : Value) → Caught (check_enum domain op v)
Caught-check_enum domain PredicateOperator.is_in v = Caught-require _ _
Caught-check_enum domain PredicateOperator.not_in v = Caught-require _ _
Caught-check_enum domain _ v = Caught-require _ _

Caught-check_value :
    (f : PredicateField) (op : PredicateOperator) (v : Value) → Caught (check_value f op v)
unfolding check_value
Caught-check_value employee_role op v = Caught-check_enum employee_roles op v
Caught-check_value expense_category op v = Caught-check_enum expense_categories op v
Caught-check_value destination_type op v = Caught-check_enum destination_types op v
Caught-check_value _ op v = Caught-require _ _

pub Caught-evaluate_conditions :
    (ps : List Predicate) (facts : ScenarioFacts) → Caught (evaluate_conditions ps facts)
unfolding evaluate_conditions evaluate_predicate typed_predicate validate_facts
Caught-evaluate_conditions ps facts = Caught-map_ok _ ps (λ p.
    Caught->>= (typed_predicate p) _
      (Caught->>= (require _ _) _ (Caught-require _ _)
        (λ _ _. Caught-check_value p.field p.operator p.value))
      (λ _ _. Caught->>= (validate_facts facts) _ (Caught-require _ _) (λ _ _.
        Caught->>= (apply_operator p.operator (fact_value p.field facts) p.value) _
          (Caught-apply_operator p.operator (fact_value p.field facts) p.value) (λ _ _. tt))))

pub Caught-rule_matches : (r : Rule) (facts : ScenarioFacts) → Caught (rule_matches r facts)
unfolding rule_matches
Caught-rule_matches r facts =
    Caught->>= (evaluate_conditions r.when facts) _ (Caught-evaluate_conditions r.when facts)
      (λ _ _. tt)

pub Caught-validate_effect_value :
    (d : EffectDimension) (v : EffectValue) → Caught (validate_effect_value d v)
unfolding validate_effect_value
Caught-validate_effect_value eligibility v = Caught-require _ _
Caught-validate_effect_value receipt_requirement v = Caught-require _ _
Caught-validate_effect_value approval_requirement v = Caught-require _ _
Caught-validate_effect_value claim_cap_minor v = Caught-require _ _
Caught-validate_effect_value daily_category_cap_minor v = Caught-require _ _

pub Caught-typed_assertion : (a : Assertion) → Caught (typed_assertion a)
unfolding typed_assertion
Caught-typed_assertion a = target a.target_kind
  where
    target : (k : TargetKind) → Caught (check_target k a.dimension a.operator a.expected_value)
    target TargetKind.compliance_value = Caught-require _ _
    target TargetKind.effect_value =
        Caught->>= (validate_effect_value a.dimension a.expected_value) _
          (Caught-validate_effect_value a.dimension a.expected_value) (λ _ _. Caught-require _ _)

pub Caught-independent_assertion : (a : Assertion) → Caught (independent_assertion a)
unfolding independent_assertion
Caught-independent_assertion a = Caught-require _ _
