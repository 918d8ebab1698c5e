-- ===== src/Evaluation/Conditions/Results.antt =====
-- The loop body of `conditions_satisfiable` at each field, and the fields that it does not try.
use policyfuzz.Prelude.{
  ◌≡◌, ◌≢◌, refl, Bool, true, false, List, [], ◌∷◌, map, All, all, elem, elem-distinct, All-map,
  All-elem, All→all, all→All, distinct, ◌==◌, Bool-cases, inl, inr, ok, arith, ◌⊎◌, All-keep, ==→eq,
}
use policyfuzz.Domain.Vocabulary.{
  PredicateField, approval_roles_present, daily_category_total_minor, field_eq, ApprovalRole,
  EmployeeRole, ExpenseCategory, DestinationType, approval_text, PredicateOperator, contains,
}
use policyfuzz.Domain.Value.{Value, str, frozenset}
use policyfuzz.Domain.Predicate.{Predicate}
use policyfuzz.Domain.Facts.{ScenarioFacts, IsInDomain, fact_value}
use policyfuzz.Evaluation.Predicates.{
  kind, approvals, IsTyped, holds, HasKind, IsValidated, fact_value-HasKind,
}
use policyfuzz.Evaluation.Conditions.Candidates.{items, field_domain, field_satisfiable}
use policyfuzz.Evaluation.Conditions.Fields.{accepted, field_answer}
use policyfuzz.Evaluation.Conditions.Assembly.{approval_of, items-AllTyped}

-- What the loop body answers for one field: exact on all facts.
pub record FieldResult (ps : List Predicate) (f : PredicateField) : Type 0 where
  pub satisfiable : Bool
  pub returned : field_satisfiable (field_domain f) (items f ps) ≡ ok satisfiable
  pub sound :
      satisfiable ≡ true
      → f ≢ approval_roles_present
      → (a : Value) × HasKind (kind f) a × (accepted (items f ps) a ≡ true)
  pub complete :
      (facts : ScenarioFacts)
      → IsInDomain facts
      → accepted (items f ps) (fact_value f facts) ≡ true
      → satisfiable ≡ true

FieldResult-of_answer :
    (ps : List Predicate) (f : PredicateField)
    → f ≢ approval_roles_present
    → All IsValidated ps
    → FieldResult ps f
FieldResult-of_answer ps f n v =
    let (b, exact) = field_answer f (items f ps) n (items-AllTyped f ps v) in
    record {
      satisfiable = b;
      returned = exact.returned;
      sound = λ h _. exact.sound h;
      complete = λ facts d. exact.complete (fact_value f facts) (fact_value-HasKind f facts d);
    }

approvals_dec : (f : PredicateField) → (f ≡ approval_roles_present) ⊎ (f ≢ approval_roles_present)
approvals_dec approval_roles_present = inl refl
approvals_dec _ = inr (λ e. cc)

FieldResult-of_approvals : (ps : List Predicate) → FieldResult ps approval_roles_present
FieldResult-of_approvals ps = record {
  satisfiable = true;
  returned = refl;
  sound = λ h n. absurd (n refl);
  complete = λ facts d h. refl;
}

pub field_result :
    (ps : List Predicate) → All IsValidated ps → (f : PredicateField) → FieldResult ps f
field_result ps v f = elim (approvals_dec f) [
  | inl e ↦ rw e (FieldResult-of_approvals ps)
  | inr n ↦ FieldResult-of_answer ps f n v
]

-- Facts that stand in where the predicates leave a field free.
abbrev pub plain_facts : ScenarioFacts
plain_facts = record {
  employee_role = EmployeeRole.employee;
  expense_category = ExpenseCategory.meal;
  amount_minor = 0;
  destination_type = DestinationType.domestic;
  booking_days_before = 0;
  receipt_present = true;
  approval_roles_present = [];
  prior_same_day_category_spend_minor = 0;
}

pub plain_facts-IsInDomain : IsInDomain plain_facts
plain_facts-IsInDomain = omega arith

abbrev pub fields : List Predicate → List PredicateField
fields ps = map (λ p. p.field) ps

items-absent :
    (f : PredicateField) (ps : List Predicate) → elem (fields ps) f ≡ false → items f ps ≡ []
items-absent f [] h = refl
items-absent f (p ∷ ps) h = ground (arith, items-absent f ps)

-- A field without predicates is satisfiable, so all fields are, tried or not.
pub all_satisfiable :
    (ps : List Predicate) (v : All IsValidated ps)
    → all (λ f. (field_result ps v f).satisfiable) (distinct (fields ps)) ≡ true
    → (f : PredicateField) → (field_result ps v f).satisfiable ≡ true
all_satisfiable ps v h f = elim (Bool-cases (elem (fields ps) f)) [
  | inl listed ↦
      All-elem (λ f. (field_result ps v f).satisfiable ≡ true) (distinct (fields ps))
        (all→All _ (distinct (fields ps)) h) f (elem-distinct f (fields ps) listed)
  | inr free ↦
      (field_result ps v f).complete plain_facts plain_facts-IsInDomain
        (rw (items-absent f ps free))
]

abbrev pub all_roles : List ApprovalRole
all_roles = ApprovalRole.manager ∷ ApprovalRole.director ∷ ApprovalRole.finance ∷ []

-- With every approval present each validated test of the approvals holds.
all_roles-holds :
    (op : PredicateOperator) (v : Value)
    → IsTyped approvals op v
    → holds op (frozenset (map approval_text all_roles)) v ≡ true
all_roles-holds contains (str s) t = let (r, e) = approval_of s t in rw e (approval r)
  where
    approval :
        (r : ApprovalRole)
        → holds contains (frozenset (map approval_text all_roles)) (str (approval_text r)) ≡ true
    approval ApprovalRole.manager = refl
    approval ApprovalRole.director = refl
    approval ApprovalRole.finance = refl
all_roles-holds contains _ t = absurd t
all_roles-holds _ v t = absurd t

pub approvals-accepted :
    (ps : List Predicate)
    → All IsValidated ps
    → accepted (items approval_roles_present ps) (frozenset (map approval_text all_roles)) ≡ true
approvals-accepted ps v = All→all _ (items approval_roles_present ps) (
    All-map (λ p t. all_roles-holds p.operator p.value t) (items approval_roles_present ps)
      (items-AllTyped approval_roles_present ps v))

-- Rules state no condition on the derived daily total: `RuleDraft` refuses it.
abbrev pub NoDailyTotal : List Predicate → Type 0
NoDailyTotal ps = All (λ p. p.field ≢ daily_category_total_minor) ps

pub daily-accepted :
    (ps : List Predicate) (a : Value)
    → NoDailyTotal ps
    → accepted (items daily_category_total_minor ps) a ≡ true
daily-accepted ps a n = All→all _ (items daily_category_total_minor ps) (
    All-map (λ p (other, e). absurd (other (==→eq p.field daily_category_total_minor e)))
      (items daily_category_total_minor ps)
      (All-keep _ (λ p. p.field == daily_category_total_minor) ps n))
