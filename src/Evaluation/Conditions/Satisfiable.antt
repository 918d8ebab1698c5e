-- ===== src/Evaluation/Conditions/Satisfiable.antt =====
-- `conditions_satisfiable` decides whether some facts match all of the predicates.
use policyfuzz.Prelude.{
  ◌≡◌, refl, Bool, true, false, List, All, all, all→All, All→all, all-map, distinct, pos, ◌↔◌, ok,
  all_ok-of_ok, All-of_elem, subst, ◌∙◌, ◌≢◌, ℕ, ◌≤◌,
}
use policyfuzz.Domain.Vocabulary.{
  EmployeeRole, ExpenseCategory, DestinationType, role_text, category_text, destination_text,
  PredicateField, employee_role, expense_category, amount_minor, destination_type,
  booking_days_before, receipt_present, approval_roles_present, prior_same_day_category_spend_minor,
  daily_category_total_minor, field_eq,
}
use policyfuzz.Domain.Value.{Value, str, int, bool}
use policyfuzz.Domain.Predicate.{Predicate}
use policyfuzz.Domain.Facts.{ScenarioFacts, IsInDomain, fact_value}
use policyfuzz.Evaluation.Predicates.{
  kind, HasKind, matches, IsValidated, evaluate_conditions, evaluate_conditions-ok, all_matched,
  PredicateTrace,
}
use policyfuzz.Evaluation.Conditions.Candidates.{items, conditions_satisfiable}
use policyfuzz.Evaluation.Conditions.Fields.{accepted}
use policyfuzz.Evaluation.Conditions.Assembly.{
  role_value, category_value, destination_value, number_value, flag_value, matches-of_accepted,
  accepted-of_matches,
}
use policyfuzz.Evaluation.Conditions.Results.{
  field_result, all_satisfiable, approvals-accepted, daily-accepted, NoDailyTotal, all_roles,
  fields,
}

-- The facts are in their domain, and evaluating the conditions on them returns only matches.
abbrev pub Matches : List Predicate → ScenarioFacts → Type 0
Matches ps facts =
    (traces : List PredicateTrace) × (evaluate_conditions ps facts ≡ ok traces)
    × (all_matched traces ≡ true)

pub Matches-of_All :
    (ps : List Predicate) (facts : ScenarioFacts)
    → All IsValidated ps
    → IsInDomain facts
    → All (λ p. matches p facts ≡ true) ps
    → Matches ps facts
Matches-of_All ps facts v d h =
    (_, evaluate_conditions-ok ps facts v d, all-map _ _ ps ∙ All→all _ ps h)

pub All-of_Matches :
    (ps : List Predicate) (facts : ScenarioFacts)
    → All IsValidated ps
    → IsInDomain facts
    → Matches ps facts
    → All (λ p. matches p facts ≡ true) ps
All-of_Matches ps facts v d (traces, e, m) =
    let same = evaluate_conditions-ok ps facts v d in
    all→All _ ps (
      cc (
        all-map (λ (t : PredicateTrace). t.matched) (λ p. record { matched = matches p facts }) ps))

abbrev is_approvals : PredicateField → Bool
is_approvals approval_roles_present = true
is_approvals _ = false

apart : (f : PredicateField) → is_approvals f ≡ false → f ≢ approval_roles_present
apart f h e = cc

-- A value for each field that satisfies the predicates on it.
abbrev Witnesses : List Predicate → Type 0
Witnesses ps =
    (f : PredicateField)
    → is_approvals f ≡ false
    → (a : Value) × HasKind (kind f) a × (accepted (items f ps) a ≡ true)

module _ (ps : List Predicate) (w : Witnesses ps) where
  role : (r : EmployeeRole) × ((w employee_role refl).0 ≡ str (role_text r))
  role = role_value (w employee_role refl).0 (w employee_role refl).1

  category : (c : ExpenseCategory) × ((w expense_category refl).0 ≡ str (category_text c))
  category = category_value (w expense_category refl).0 (w expense_category refl).1

  destination : (d : DestinationType) × ((w destination_type refl).0 ≡ str (destination_text d))
  destination = destination_value (w destination_type refl).0 (w destination_type refl).1

  amount : (n : ℕ) × ((w amount_minor refl).0 ≡ int (pos n)) × (n ≤ 10_000_000)
  amount = number_value 10_000_000 (w amount_minor refl).0 (w amount_minor refl).1

  booking : (n : ℕ) × ((w booking_days_before refl).0 ≡ int (pos n)) × (n ≤ 365)
  booking = number_value 365 (w booking_days_before refl).0 (w booking_days_before refl).1

  prior :
      (n : ℕ) × ((w prior_same_day_category_spend_minor refl).0 ≡ int (pos n)) × (n ≤ 10_000_000)
  prior =
      number_value 10_000_000 (w prior_same_day_category_spend_minor refl).0
        (w prior_same_day_category_spend_minor refl).1

  receipt : (b : Bool) × ((w receipt_present refl).0 ≡ bool b)
  receipt = flag_value (w receipt_present refl).0 (w receipt_present refl).1

  -- The facts that hold the witnesses, with every approval present.
  assembled : ScenarioFacts
  assembled = record {
    employee_role = role.0;
    expense_category = category.0;
    amount_minor = amount.0;
    destination_type = destination.0;
    booking_days_before = booking.0;
    receipt_present = receipt.0;
    approval_roles_present = all_roles;
    prior_same_day_category_spend_minor = prior.0;
  }

  assembled-IsInDomain : IsInDomain assembled
  unfolding assembled
  assembled-IsInDomain = record { amount = amount.2; booking = booking.2; prior = prior.2 }

  transfer :
      (f : PredicateField) (a b : Value)
      → a ≡ b
      → accepted (items f ps) a ≡ true
      → accepted (items f ps) b ≡ true
  transfer f a b e h = subst (λ v. accepted (items f ps) v ≡ true) e h

  assembled-accepted :
      All IsValidated ps
      → NoDailyTotal ps
      → (f : PredicateField) → accepted (items f ps) (fact_value f assembled) ≡ true
  unfolding assembled
  assembled-accepted v n employee_role = transfer employee_role _ _ role.1 (w employee_role refl).2
  assembled-accepted v n expense_category =
      transfer expense_category _ _ category.1 (w expense_category refl).2
  assembled-accepted v n destination_type =
      transfer destination_type _ _ destination.1 (w destination_type refl).2
  assembled-accepted v n amount_minor = transfer amount_minor _ _ amount.1 (w amount_minor refl).2
  assembled-accepted v n booking_days_before =
      transfer booking_days_before _ _ booking.1 (w booking_days_before refl).2
  assembled-accepted v n prior_same_day_category_spend_minor =
      transfer prior_same_day_category_spend_minor _ _ prior.1
        (w prior_same_day_category_spend_minor refl).2
  assembled-accepted v n receipt_present =
      transfer receipt_present _ _ receipt.1 (w receipt_present refl).2
  assembled-accepted v n approval_roles_present = approvals-accepted ps v
  assembled-accepted v n daily_category_total_minor = daily-accepted ps _ n

-- For validated predicates, none on the daily total, `conditions_satisfiable` returns, and its
-- answer is true exactly when some facts in their domain match all of the predicates.
pub conditions_satisfiable-exact :
    (ps : List Predicate)
    → All IsValidated ps
    → NoDailyTotal ps
    → (b : Bool) × (conditions_satisfiable ps ≡ ok b)
      × ((b ≡ true) ↔ ((facts : ScenarioFacts) × IsInDomain facts × Matches ps facts))
unfolding conditions_satisfiable
conditions_satisfiable-exact ps v n = (
  all (λ f. (field_result ps v f).satisfiable) (distinct (fields ps)),
  all_ok-of_ok _ _ (distinct (fields ps))
      (All-of_elem _ (distinct (fields ps)) (λ f _. (field_result ps v f).returned)),
  (
    λ h.
        let w : Witnesses ps =
          λ f other. (field_result ps v f).sound (all_satisfiable ps v h f) (apart f other) in
        (
          assembled ps w,
          assembled-IsInDomain ps w,
          Matches-of_All ps (assembled ps w) v (assembled-IsInDomain ps w)
              (matches-of_accepted (assembled ps w) ps (assembled-accepted ps w v n)),
        ),
    λ (facts, d, m). All→all _ (distinct (fields ps)) (
        All-of_elem _ (distinct (fields ps)) (λ f _.
          (field_result ps v f).complete facts d
            (accepted-of_matches facts ps f (All-of_Matches ps facts v d m)))),
  ),
)
