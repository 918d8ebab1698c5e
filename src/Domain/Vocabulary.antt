-- ===== src/Domain/Vocabulary.antt =====
-- backend/app/domain/models/common.py: the closed vocabularies, `Literal` types and `StrEnum`s.
use mathlib.Core.List.{List, [], ◌∷◌}
use Prim.Native.String.{String}
use policyfuzz.Prelude.{Eq, Eq-of_discrete}

pub data EmployeeRole : Type 0 where
  employee manager director executive : EmployeeRole

pub data ExpenseCategory : Type 0 where
  meal hotel transport airfare incidental : ExpenseCategory

pub data DestinationType : Type 0 where
  domestic international : DestinationType

pub data ApprovalRole : Type 0 where
  manager director finance : ApprovalRole

-- `FactField` and the invariant-only total
pub data PredicateField : Type 0 where
  employee_role expense_category amount_minor destination_type : PredicateField
  booking_days_before receipt_present approval_roles_present : PredicateField
  prior_same_day_category_spend_minor daily_category_total_minor : PredicateField

-- `is_in` is the operator "in", a reserved word here.
pub data PredicateOperator : Type 0 where
  eq neq is_in not_in lt lte gt gte contains : PredicateOperator

pub data EffectDimension : Type 0 where
  eligibility receipt_requirement approval_requirement : EffectDimension
  claim_cap_minor daily_category_cap_minor : EffectDimension

pub data EffectStatus : Type 0 where
  value gap not_applicable conflict inconclusive error : EffectStatus

pub data AssertionStatus : Type 0 where
  pass fail inconclusive error : AssertionStatus

pub data ComplianceStatus : Type 0 where
  compliant noncompliant not_applicable inconclusive error : ComplianceStatus

pub data Severity : Type 0 where
  low medium high critical : Severity

unfoldable pub PredicateField-discrete : Discrete PredicateField
PredicateField-discrete = hlevel

unfoldable pub PredicateOperator-discrete : Discrete PredicateOperator
PredicateOperator-discrete = hlevel

unfoldable pub EffectDimension-discrete : Discrete EffectDimension
EffectDimension-discrete = hlevel

unfoldable pub EffectStatus-discrete : Discrete EffectStatus
EffectStatus-discrete = hlevel

unfoldable pub AssertionStatus-discrete : Discrete AssertionStatus
AssertionStatus-discrete = hlevel

unfoldable pub ComplianceStatus-discrete : Discrete ComplianceStatus
ComplianceStatus-discrete = hlevel

instance abbrev pub field_eq : Eq PredicateField
unfolding PredicateField-discrete
field_eq = Eq-of_discrete PredicateField-discrete

instance abbrev pub operator_eq : Eq PredicateOperator
unfolding PredicateOperator-discrete
operator_eq = Eq-of_discrete PredicateOperator-discrete

instance abbrev pub dimension_eq : Eq EffectDimension
unfolding EffectDimension-discrete
dimension_eq = Eq-of_discrete EffectDimension-discrete

instance abbrev pub effect_status_eq : Eq EffectStatus
unfolding EffectStatus-discrete
effect_status_eq = Eq-of_discrete EffectStatus-discrete

instance abbrev pub assertion_status_eq : Eq AssertionStatus
unfolding AssertionStatus-discrete
assertion_status_eq = Eq-of_discrete AssertionStatus-discrete

instance abbrev pub compliance_status_eq : Eq ComplianceStatus
unfolding ComplianceStatus-discrete
compliance_status_eq = Eq-of_discrete ComplianceStatus-discrete

-- `[d for d in EffectDimension]`, in declaration order
abbrev pub effect_dimensions : List EffectDimension
effect_dimensions =
    EffectDimension.eligibility ∷ EffectDimension.receipt_requirement
    ∷ EffectDimension.approval_requirement ∷ EffectDimension.claim_cap_minor
    ∷ EffectDimension.daily_category_cap_minor ∷ []

-- The strings that the members of a vocabulary are at run time.
abbrev pub role_text : EmployeeRole → String
role_text EmployeeRole.employee = "employee"
role_text EmployeeRole.manager = "manager"
role_text EmployeeRole.director = "director"
role_text EmployeeRole.executive = "executive"

abbrev pub category_text : ExpenseCategory → String
category_text ExpenseCategory.meal = "meal"
category_text ExpenseCategory.hotel = "hotel"
category_text ExpenseCategory.transport = "transport"
category_text ExpenseCategory.airfare = "airfare"
category_text ExpenseCategory.incidental = "incidental"

abbrev pub destination_text : DestinationType → String
destination_text DestinationType.domestic = "domestic"
destination_text DestinationType.international = "international"

abbrev pub approval_text : ApprovalRole → String
approval_text ApprovalRole.manager = "manager"
approval_text ApprovalRole.director = "director"
approval_text ApprovalRole.finance = "finance"

abbrev pub compliance_text : ComplianceStatus → String
compliance_text ComplianceStatus.compliant = "COMPLIANT"
compliance_text ComplianceStatus.noncompliant = "NONCOMPLIANT"
compliance_text ComplianceStatus.not_applicable = "NOT_APPLICABLE"
compliance_text ComplianceStatus.inconclusive = "INCONCLUSIVE"
compliance_text ComplianceStatus.error = "ERROR"
