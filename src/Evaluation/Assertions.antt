-- ===== src/Evaluation/Assertions.antt =====
-- backend/app/features/evaluation/assertions.py: an assertion is scored only on a resolved value.
use policyfuzz.Prelude.{
  String, ◌≡◌, ◌⊎◌, inl, inr, refl, Bool, true, false, List, [], ◌∷◌, Outcome, ok, raised,
  type_error, ◌>>=◌, Option, none, some, Option-cases, if◌then◌else◌, ◌==◌, arith,
}
use policyfuzz.Domain.Vocabulary.{
  EffectDimension, dimension_eq, EffectStatus, AssertionStatus, ComplianceStatus,
}
use policyfuzz.Domain.Value.{apply_operator}
use policyfuzz.Domain.Rule.{EffectValue, text, operand}
use policyfuzz.Domain.Intent.{Assertion, TargetKind, AssertionOperator, operator_of}
use policyfuzz.Evaluation.Resolution.{DimensionResult}
use policyfuzz.Evaluation.Compliance.{ComplianceResult}

pub record AssertionResult : Type 0 where
  pub assertion_id : String
  pub status : AssertionStatus
  pub actual_value : Option EffectValue

-- `next((d for d in dimensions if d.dimension == dimension), None)`
unfoldable pub find_dimension : EffectDimension → List DimensionResult → Option DimensionResult
find_dimension dimension [] = none
find_dimension dimension (d ∷ ds) =
    if d.dimension == dimension then some d else find_dimension dimension ds

unfoldable pub find_compliance : EffectDimension → List ComplianceResult → Option ComplianceResult
find_compliance dimension [] = none
find_compliance dimension (c ∷ cs) =
    if c.dimension == dimension then some c else find_compliance dimension cs

abbrev unscored : Assertion → AssertionStatus → AssertionResult
unscored a status = record { assertion_id = a.assertion_id; status = status; actual_value = none }

abbrev outcome : Bool → AssertionStatus
outcome true = AssertionStatus.pass
outcome false = AssertionStatus.fail

-- The comparison at the end of the function.
abbrev pub scored : Assertion → EffectValue → Outcome AssertionResult
scored a actual = do
  matched ← apply_operator (operator_of a.operator) (operand actual) (operand a.expected_value)
  ok (record {
    assertion_id = a.assertion_id;
    status = outcome matched;
    actual_value = some actual;
  })

abbrev pub by_compliance : Assertion → Option ComplianceStatus → Outcome AssertionResult
by_compliance a none = ok (unscored a AssertionStatus.error)
by_compliance a (some ComplianceStatus.error) = ok (unscored a AssertionStatus.error)
by_compliance a (some ComplianceStatus.compliant) = scored a (text "COMPLIANT")
by_compliance a (some ComplianceStatus.noncompliant) = scored a (text "NONCOMPLIANT")
by_compliance a (some _) = ok (unscored a AssertionStatus.inconclusive)

abbrev pub status_of : Option ComplianceResult → Option ComplianceStatus
status_of none = none
status_of (some c) = some c.status

-- The comparison of `None`, which is equal to no text and no amount.
abbrev pub compare_none : AssertionOperator → Outcome Bool
compare_none AssertionOperator.eq = ok false
compare_none AssertionOperator.neq = ok true
compare_none _ = raised type_error

abbrev pub scored_none : Assertion → Outcome AssertionResult
scored_none a = compare_none a.operator >>= λ matched. ok (unscored a (outcome matched))

abbrev pub by_value :
    Assertion → TargetKind → Option EffectValue → List ComplianceResult → Outcome AssertionResult
by_value a TargetKind.compliance_value v compliance =
    by_compliance a (status_of (find_compliance a.dimension compliance))
by_value a TargetKind.effect_value (some v) compliance = scored a v
by_value a TargetKind.effect_value none compliance = scored_none a

abbrev pub by_status :
    Assertion → EffectStatus → Option EffectValue → List ComplianceResult → Outcome AssertionResult
by_status a EffectStatus.error v compliance = ok (unscored a AssertionStatus.error)
by_status a EffectStatus.value v compliance = by_value a a.target_kind v compliance
by_status a _ v compliance = ok (unscored a AssertionStatus.inconclusive)

unfoldable pub evaluate_assertion :
    Assertion → List DimensionResult → List ComplianceResult → Outcome AssertionResult
unfolding find_dimension find_compliance
evaluate_assertion a dimensions compliance = elim (find_dimension a.dimension dimensions) [
  | none ↦ ok (unscored a AssertionStatus.error)
  | some d ↦ by_status a d.status d.value compliance
]

pub record WasResolved (a : Assertion) (dimensions : List DimensionResult) : Type 0 where
  pub dimension : DimensionResult
  pub found : find_dimension a.dimension dimensions ≡ some dimension
  pub resolved : dimension.status ≡ EffectStatus.value

by_status-value :
    (a : Assertion) (st : EffectStatus) (v : Option EffectValue)
    (compliance : List ComplianceResult) (r : AssertionResult)
    → by_status a st v compliance ≡ ok r
    → (r.status ≡ AssertionStatus.pass) ⊎ (r.status ≡ AssertionStatus.fail)
    → st ≡ EffectStatus.value
by_status-value a EffectStatus.value v compliance r e h = refl
by_status-value a EffectStatus.error v compliance r e h = ground arith
by_status-value a _ v compliance r e h = ground arith

-- An assertion passes or fails only on a dimension that was resolved to a value: on any other status
-- it is inconclusive or an error.
pub evaluate_assertion-WasResolved :
    (a : Assertion) (dimensions : List DimensionResult) (compliance : List ComplianceResult)
    (r : AssertionResult)
    → evaluate_assertion a dimensions compliance ≡ ok r
    → (r.status ≡ AssertionStatus.pass) ⊎ (r.status ≡ AssertionStatus.fail)
    → WasResolved a dimensions
unfolding evaluate_assertion
evaluate_assertion-WasResolved a dimensions compliance r e scored_status =
    elim (Option-cases (find_dimension a.dimension dimensions)) [
      | inl absent ↦ absurd (nothing (rw (absent, evaluate_assertion) at e))
      | inr (d, found) ↦ record {
        dimension = d;
        found = found;
        resolved =
            by_status-value a d.status d.value compliance r (rw (found, evaluate_assertion) at e)
              scored_status;
      }
    ]
  where
    nothing : ok (unscored a AssertionStatus.error) ≡ ok r → ⊥
    nothing same = ground arith
