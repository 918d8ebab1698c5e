-- ===== src/Domain/Intent.antt =====
-- backend/app/domain/models/policy.py: assertions, invariants and the policy contract.
use policyfuzz.Prelude.{
  String, Bool, true, false, not, ◌&&◌, ◌||◌, List, [], ◌∷◌, map, elem, has_duplicates, length, leb,
  ◌==◌, string_eq, Outcome, require, ◌>>◌, Option, none, some, decide, is_empty,
}
use policyfuzz.Domain.Vocabulary.{
  EffectDimension, eligibility, dimension_eq, PredicateOperator, Severity,
}
use policyfuzz.Domain.Predicate.{Predicate}
use policyfuzz.Domain.Rule.{
  EffectValue, text, amount, effect_value_eq, validate_effect_value, is_categorical,
}

pub data TargetKind : Type 0 where
  effect_value compliance_value : TargetKind

-- `Literal["eq", "neq", "lte", "gte"]`
pub data AssertionOperator : Type 0 where
  eq neq lte gte : AssertionOperator

abbrev pub operator_of : AssertionOperator → PredicateOperator
operator_of AssertionOperator.eq = PredicateOperator.eq
operator_of AssertionOperator.neq = PredicateOperator.neq
operator_of AssertionOperator.lte = PredicateOperator.lte
operator_of AssertionOperator.gte = PredicateOperator.gte

-- The origin of an assertion, with the identifiers that refer to it.
pub data AssertionOrigin : Type 0 where
  gold session_confirmed mechanical : AssertionOrigin

pub record Assertion : Type 0 where
  pub assertion_id : String
  pub target_kind : TargetKind
  pub dimension : EffectDimension
  pub operator : AssertionOperator
  pub expected_value : EffectValue
  pub origin : AssertionOrigin
  pub source_invariant_id : Option String
  pub gold_label_id : Option String
  pub mechanical_relation_id : Option String

abbrev is_equality : AssertionOperator → Bool
is_equality AssertionOperator.eq = true
is_equality AssertionOperator.neq = true
is_equality _ = false

abbrev is_eligibility : EffectDimension → Bool
is_eligibility eligibility = true
is_eligibility _ = false

-- `expected_value in ("COMPLIANT", "NONCOMPLIANT")`
abbrev is_compliance_value : EffectValue → Bool
is_compliance_value (text s) = elem ("COMPLIANT" ∷ "NONCOMPLIANT" ∷ []) s
is_compliance_value (amount n) = false

unfoldable pub check_target :
    TargetKind → EffectDimension → AssertionOperator → EffectValue → Outcome (Unit {0})
check_target TargetKind.compliance_value dimension operator expected =
    require
      (not (is_eligibility dimension) && (is_compliance_value expected && is_equality operator))
      "compliance assertion requires a requirement dimension and compliance value"
check_target TargetKind.effect_value dimension operator expected = do
  validate_effect_value dimension expected
  require (not (is_categorical dimension) || is_equality operator)
      "categorical effect assertions support only eq and neq"

unfoldable pub typed_assertion : Assertion → Outcome (Unit {0})
unfolding check_target
typed_assertion a = check_target a.target_kind a.dimension a.operator a.expected_value

abbrev pub is_some {ℓ} : {A : Type ℓ} → Option A → Bool
is_some none = false
is_some (some a) = true

-- Exactly the reference of the origin is there.
check_origin : AssertionOrigin → Bool → Bool → Bool → Bool
check_origin AssertionOrigin.gold label invariant relation =
    label && (not invariant && not relation)
check_origin AssertionOrigin.session_confirmed label invariant relation =
    invariant && (not label && not relation)
check_origin AssertionOrigin.mechanical label invariant relation =
    relation && (not label && not invariant)

unfoldable pub independent_assertion : Assertion → Outcome (Unit {0})
unfolding check_origin
independent_assertion a =
    require
      (check_origin a.origin (is_some a.gold_label_id) (is_some a.source_invariant_id)
        (is_some a.mechanical_relation_id))
      "assertion requires exactly its independent origin reference"

pub record Invariant : Type 0 where
  pub invariant_id : String
  pub description : String
  pub when : List Predicate
  pub assertion : Assertion
  pub severity : Severity

abbrev is_session : AssertionOrigin → Bool
is_session AssertionOrigin.session_confirmed = true
is_session _ = false

abbrev refers_to : Option String → String → Bool
refers_to none id = false
refers_to (some s) id = s == id

unfoldable pub assertion_matches_invariant : Invariant → Outcome (Unit {0})
assertion_matches_invariant i =
    require
      (is_session i.assertion.origin && refers_to i.assertion.source_invariant_id i.invariant_id)
      "invariant assertion must reference this session invariant"

pub record PolicyContract : Type 0 where
  pub contract_id : String
  pub required_dimensions : List EffectDimension
  pub invariants : List Invariant

unfoldable pub unique_invariants : PolicyContract → Outcome (Unit {0})
unique_invariants contract = do
  require (not (is_empty contract.required_dimensions)) "at least one required dimension"
  require (leb 3 (length contract.invariants) && leb (length contract.invariants) 5)
      "three to five invariants"
  require (not (has_duplicates (map (λ i. i.invariant_id) contract.invariants)))
      "invariant IDs must be unique"
  require (not (has_duplicates (map (λ i. i.assertion.assertion_id) contract.invariants)))
      "invariant assertion IDs must be unique"

unfoldable pub AssertionOrigin-discrete : Discrete AssertionOrigin
AssertionOrigin-discrete = hlevel

unfoldable pub TargetKind-discrete : Discrete TargetKind
TargetKind-discrete = hlevel

unfoldable pub AssertionOperator-discrete : Discrete AssertionOperator
AssertionOperator-discrete = hlevel

abbrev same_text : Option String → Option String → Bool
same_text none none = true
same_text (some a) (some b) = a == b
same_text _ _ = false

-- `==` of two models: all fields are equal.
abbrev pub assertion_beq : Assertion → Assertion → Bool
unfolding AssertionOrigin-discrete TargetKind-discrete AssertionOperator-discrete decide
assertion_beq a b =
    a.assertion_id == b.assertion_id
    && (decide (TargetKind-discrete a.target_kind b.target_kind)
        && (a.dimension == b.dimension
            && (decide (AssertionOperator-discrete a.operator b.operator)
                && (a.expected_value == b.expected_value
                    && (decide (AssertionOrigin-discrete a.origin b.origin)
                        && (same_text a.source_invariant_id b.source_invariant_id
                            && (same_text a.gold_label_id b.gold_label_id
                                && same_text a.mechanical_relation_id
                                    b.mechanical_relation_id)))))))
