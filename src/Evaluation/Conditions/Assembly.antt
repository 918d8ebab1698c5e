-- ===== src/Evaluation/Conditions/Assembly.antt =====
-- Facts from one value for each field, and predicates on facts field by field.
use mathlib.Core.Bool.{false≢true}
use policyfuzz.Prelude.{
  String, ℕ, ◌≤◌, ◌≡◌, refl, Bool, true, List, [], ◌∷◌, map, All, elem, elem-cons, All-map, All→all,
  all→All, All-keep, All-of_keep, All-at_key, ==→eq, ==_refl, inl, inr, pos, string_eq, ◌==◌, subst,
  sym, ap,
}
use policyfuzz.Domain.Vocabulary.{
  EmployeeRole, ExpenseCategory, DestinationType, role_text, category_text, destination_text,
  ApprovalRole, approval_text, PredicateField, field_eq,
}
use policyfuzz.Domain.Value.{Value, str, int, bool}
use policyfuzz.Domain.Predicate.{
  Predicate, employee_roles, expense_categories, destination_types, approval_roles,
}
use policyfuzz.Domain.Facts.{ScenarioFacts, fact_value}
use policyfuzz.Evaluation.Predicates.{
  integer, enumeration, flag, kind, HasKind, IsTyped, holds, matches, IsValidated,
  IsValidated-IsTyped,
}
use policyfuzz.Evaluation.Conditions.Candidates.{items}
use policyfuzz.Evaluation.Conditions.Fields.{accepted, AllTyped}

preimage {ℓ} :
    {A : Type ℓ} (f : A → String) (xs : List A) (s : String)
    → elem (map f xs) s ≡ true
    → (a : A) × (s ≡ f a)
preimage f [] s h = absurd (false≢true h)
preimage f (x ∷ xs) s h = elim (elem-cons (f x) s (map f xs) h) [
  | inl e ↦ (x, sym e)
  | inr there ↦ preimage f xs s there
]

pub role_of : (s : String) → elem employee_roles s ≡ true → (r : EmployeeRole) × (s ≡ role_text r)
role_of = preimage role_text (
    EmployeeRole.employee ∷ EmployeeRole.manager ∷ EmployeeRole.director ∷ EmployeeRole.executive
    ∷ [])

pub category_of :
    (s : String) → elem expense_categories s ≡ true → (c : ExpenseCategory) × (s ≡ category_text c)
category_of = preimage category_text (
    ExpenseCategory.meal ∷ ExpenseCategory.hotel ∷ ExpenseCategory.transport
    ∷ ExpenseCategory.airfare ∷ ExpenseCategory.incidental ∷ [])

pub destination_of :
    (s : String)
    → elem destination_types s ≡ true
    → (d : DestinationType) × (s ≡ destination_text d)
destination_of =
    preimage destination_text (DestinationType.domestic ∷ DestinationType.international ∷ [])

pub approval_of :
    (s : String) → elem approval_roles s ≡ true → (r : ApprovalRole) × (s ≡ approval_text r)
approval_of =
    preimage approval_text
      (ApprovalRole.manager ∷ ApprovalRole.director ∷ ApprovalRole.finance ∷ [])

-- The shape of a value of each kind.
pub role_value :
    (a : Value)
    → HasKind (enumeration employee_roles) a
    → (r : EmployeeRole) × (a ≡ str (role_text r))
role_value (str s) h = let (r, e) = role_of s h in (r, ap str e)
role_value _ h = absurd h

pub category_value :
    (a : Value)
    → HasKind (enumeration expense_categories) a
    → (c : ExpenseCategory) × (a ≡ str (category_text c))
category_value (str s) h = let (c, e) = category_of s h in (c, ap str e)
category_value _ h = absurd h

pub destination_value :
    (a : Value)
    → HasKind (enumeration destination_types) a
    → (d : DestinationType) × (a ≡ str (destination_text d))
destination_value (str s) h = let (d, e) = destination_of s h in (d, ap str e)
destination_value _ h = absurd h

pub number_value :
    (m : ℕ) (a : Value) → HasKind (integer m) a → (n : ℕ) × (a ≡ int (pos n)) × (n ≤ m)
number_value m (int (pos n)) h = (n, refl, h)
number_value m _ h = absurd h

pub flag_value : (a : Value) → HasKind flag a → (b : Bool) × (a ≡ bool b)
flag_value (bool b) h = (b, refl)
flag_value _ h = absurd h

-- The predicates on a field are validated for the field's kind.
pub items-AllTyped :
    (f : PredicateField) (ps : List Predicate) → All IsValidated ps → AllTyped (kind f) (items f ps)
items-AllTyped f ps v =
    All-map
      (λ p (h, e).
        subst (λ g. IsTyped (kind g) p.operator p.value) (==→eq p.field f e)
          (IsValidated-IsTyped p h))
      (items f ps) (All-keep IsValidated (λ p. p.field == f) ps v)

-- Facts whose value at every field satisfies the predicates on the field satisfy all predicates.
pub matches-of_accepted :
    (facts : ScenarioFacts) (ps : List Predicate)
    → ((f : PredicateField) → accepted (items f ps) (fact_value f facts) ≡ true)
    → All (λ p. matches p facts ≡ true) ps
matches-of_accepted facts ps h =
    All-map (λ p k. k (==_refl p.field)) ps
      (All-at_key (λ p. p.field)
        (λ f p. (p.field == f) ≡ true → holds p.operator (fact_value f facts) p.value ≡ true) ps
        (λ f. All-of_keep _ (λ p. p.field == f) ps (all→All _ (items f ps) (h f))))

pub accepted-of_matches :
    (facts : ScenarioFacts) (ps : List Predicate) (f : PredicateField)
    → All (λ p. matches p facts ≡ true) ps
    → accepted (items f ps) (fact_value f facts) ≡ true
accepted-of_matches facts ps f h = All→all _ (items f ps) (
    All-map
      (λ p (m, e).
        subst (λ g. holds p.operator (fact_value g facts) p.value ≡ true) (==→eq p.field f e) m)
      (items f ps) (All-keep (λ p. matches p facts ≡ true) (λ p. p.field == f) ps h))
