-- ===== src/Evaluation/Conditions/Candidates.antt =====
-- `conditions_satisfiable` and `conditions_unrestricted`. Python builds the fields and the
-- candidates as sets; here they are tried in the order of the predicates.
use policyfuzz.Prelude.{
  ℕ, Bool, true, false, ◌&&◌, List, [], ◌∷◌, ◌++◌, map, keep, distinct, string_eq, ℤ, pos, leb_ℤ,
  pred_ℤ, suc_ℤ, Outcome, ok, raised, type_error, ◌>>=◌, all_ok, any_ok, ◌==◌,
}
use policyfuzz.Domain.Vocabulary.{
  PredicateField, employee_role, expense_category, amount_minor, destination_type,
  booking_days_before, receipt_present, approval_roles_present, prior_same_day_category_spend_minor,
  daily_category_total_minor, field_eq,
}
use policyfuzz.Domain.Value.{Value, str, int, bool, apply_operator}
use policyfuzz.Domain.Predicate.{Predicate, employee_roles, expense_categories, destination_types}

-- The integer that `p.value - 1` and `p.value + 1` are computed from: no text has one.
abbrev pub number : Value → Outcome ℤ
number (int n) = ok n
number (bool true) = ok (pos 1)
number (bool false) = ok (pos 0)
number _ = raised type_error

-- `v for v in vs if 0 <= v <= maximum`
abbrev pub within : ℕ → List ℤ → List ℤ
within maximum vs = keep (λ v. leb_ℤ (pos 0) v && leb_ℤ v (pos maximum)) vs

-- The candidates that the predicates add to `{0, maximum}`.
abbrev pub boundaries : ℕ → List Predicate → Outcome (List ℤ)
boundaries maximum [] = ok []
boundaries maximum (p ∷ ps) = do
  n ← number p.value
  rest ← boundaries maximum ps
  ok (within maximum (pred_ℤ n ∷ n ∷ suc_ℤ n ∷ []) ++ rest)

-- `_DOMAINS.get(field)` and `_MAXIMA.get(field)`
pub data FieldDomain : Type 0 where
  values : List Value → FieldDomain
  maximum : ℕ → FieldDomain
  roles : FieldDomain

abbrev pub field_domain : PredicateField → FieldDomain
field_domain employee_role = values (map str employee_roles)
field_domain expense_category = values (map str expense_categories)
field_domain destination_type = values (map str destination_types)
field_domain receipt_present = values (bool true ∷ bool false ∷ [])
field_domain amount_minor = maximum 10_000_000
field_domain booking_days_before = maximum 365
field_domain prior_same_day_category_spend_minor = maximum 10_000_000
field_domain daily_category_total_minor = maximum 20_000_000
field_domain approval_roles_present = roles

-- `[p for p in predicates if p.field == field]`
abbrev pub items : PredicateField → List Predicate → List Predicate
items field predicates = keep (λ p. p.field == field) predicates

-- `all(_OPERATORS[p.operator](v, p.value) for p in items)`
abbrev pub all_accept : List Predicate → Value → Outcome Bool
all_accept ps v = all_ok (λ p. apply_operator p.operator v p.value) ps

-- The body of the loop over the fields: some candidate satisfies every predicate on the field.
abbrev pub field_satisfiable : FieldDomain → List Predicate → Outcome Bool
field_satisfiable roles ps = ok true
field_satisfiable (values vs) ps = any_ok (all_accept ps) vs
field_satisfiable (maximum m) ps = do
  added ← boundaries m ps
  any_ok (all_accept ps) (map int (pos 0 ∷ pos m ∷ added))

unfoldable pub conditions_satisfiable : List Predicate → Outcome Bool
conditions_satisfiable predicates =
    all_ok (λ field. field_satisfiable (field_domain field) (items field predicates))
      (distinct (map (λ p. p.field) predicates))

-- `all(_OPERATORS[p.operator](v, p.value) for v in candidates)`
abbrev pub accepts_all : Predicate → List Value → Outcome Bool
accepts_all p vs = all_ok (λ v. apply_operator p.operator v p.value) vs

-- The body of the loop over the predicates: the predicate accepts every candidate.
abbrev pub predicate_unrestricted : FieldDomain → Predicate → Outcome Bool
predicate_unrestricted roles p = ok false
predicate_unrestricted (values vs) p = accepts_all p vs
predicate_unrestricted (maximum m) p = do
  n ← number p.value
  accepts_all p (map int (pos 0 ∷ pos m ∷ n ∷ within m (pred_ℤ n ∷ suc_ℤ n ∷ [])))

unfoldable pub conditions_unrestricted : List Predicate → Outcome Bool
conditions_unrestricted predicates =
    all_ok (λ p. predicate_unrestricted (field_domain p.field) p) predicates
