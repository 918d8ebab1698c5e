-- ===== src/Evaluation/Compliance.antt =====
-- backend/app/features/evaluation/compliance.py: whether the stored facts of a claim meet a resolved
-- requirement.
use mathlib.Core.Bool.{false≢true}
use policyfuzz.Prelude.{
  String, ℕ, ◌+◌, ◌≤◌, ◌≡◌, ◌≢◌, elem, ◌⊎◌, ◌↔◌, inl, inr, refl, Bool, Bool-cases, suc, true, false,
  ◌||◌, List, [], ◌∷◌, max, leb, leb→le, le→leb, ◌==◌, string_eq, Outcome, ok, raised, type_error,
  key_error, ◌>>=◌, ◌>>◌, Option, none, some, if◌then◌else◌, arith, elem-cons, ap, ==→eq, eq→==,
  or_cases, or_left, or_right,
}
use policyfuzz.Domain.Vocabulary.{
  EffectDimension, eligibility, receipt_requirement, approval_requirement, claim_cap_minor,
  daily_category_cap_minor, ApprovalRole, ComplianceStatus,
}
use policyfuzz.Domain.Rule.{approval_values, EffectValue, text, amount, validate_effect_value}
use policyfuzz.Domain.Facts.{
  ScenarioFacts, IsInDomain, validate_facts, validate_facts-of_IsInDomain,
}

pub record ComplianceResult : Type 0 where
  pub dimension : EffectDimension
  pub status : ComplianceStatus

-- `_APPROVAL_RANK[r]` for the role of an approval
abbrev pub approval_rank : ApprovalRole → ℕ
approval_rank ApprovalRole.manager = 1
approval_rank ApprovalRole.director = 2
approval_rank ApprovalRole.finance = 3

-- `_APPROVAL_RANK[resolved_value]`
abbrev pub required_rank : EffectValue → Outcome ℕ
required_rank (text s) =
    if s == "none"
    then ok 0
    else if s == "manager"
    then ok 1
    else if s == "director"
    then ok 2
    else if s == "finance"
    then ok 3
    else raised key_error
required_rank (amount n) = raised key_error

-- `max((...), default=0)`
abbrev pub highest_rank : List ApprovalRole → ℕ
highest_rank [] = 0
highest_rank (r ∷ rs) = max (approval_rank r) (highest_rank rs)

abbrev is_not_required : EffectValue → Bool
is_not_required (text s) = s == "not_required"
is_not_required (amount n) = false

-- `n <= resolved_value`
abbrev pub at_most : ℕ → EffectValue → Outcome Bool
at_most n (text s) = raised type_error
at_most n (amount m) = ok (leb n m)

unfoldable pub is_compliant : EffectDimension → EffectValue → ScenarioFacts → Outcome Bool
is_compliant receipt_requirement v facts = ok (is_not_required v || facts.receipt_present)
is_compliant approval_requirement v facts =
    required_rank v >>= λ needed. ok (leb needed (highest_rank facts.approval_roles_present))
is_compliant claim_cap_minor v facts = at_most facts.amount_minor v
is_compliant daily_category_cap_minor v facts =
    at_most (facts.amount_minor + facts.prior_same_day_category_spend_minor) v
is_compliant eligibility v facts = ok true

abbrev pub compliance_status : Bool → ComplianceStatus
compliance_status true = ComplianceStatus.compliant
compliance_status false = ComplianceStatus.noncompliant

abbrev pub is_eligibility : EffectDimension → Bool
is_eligibility eligibility = true
is_eligibility _ = false

unfoldable pub derive_compliance :
    EffectDimension → EffectValue → ScenarioFacts → Outcome (Option ComplianceResult)
unfolding is_compliant
derive_compliance dimension v facts = do
  validate_facts facts
  if is_eligibility dimension
      then ok none
      else (is_compliant dimension v facts >>= λ compliant.
          ok (some (record { dimension = dimension; status = compliance_status compliant })))

-- An approval that meets each requirement: a manager's is met by any approval, a director's by a
-- director's or by finance, and one of finance by finance only.
abbrev pub Approves : String → ApprovalRole → Type 0
Approves s ApprovalRole.manager = s ≡ "manager"
Approves s ApprovalRole.director = (s ≡ "manager") ⊎ (s ≡ "director")
Approves s ApprovalRole.finance = (s ≡ "manager") ⊎ ((s ≡ "director") ⊎ (s ≡ "finance"))

abbrev pub HasApproval : String → List ApprovalRole → Type 0
HasApproval s [] = ⊥
HasApproval s (r ∷ rs) = Approves s r ⊎ HasApproval s rs

-- What a requirement asks of the facts.
abbrev pub IsMet : EffectDimension → EffectValue → ScenarioFacts → Type 0
IsMet receipt_requirement v facts = (v ≡ text "not_required") ⊎ (facts.receipt_present ≡ true)
IsMet approval_requirement v facts =
    (s : String) × (v ≡ text s) × ((s ≡ "none") ⊎ HasApproval s facts.approval_roles_present)
IsMet claim_cap_minor v facts = (m : ℕ) × (v ≡ amount m) × (facts.amount_minor ≤ m)
IsMet daily_category_cap_minor v facts =
    (m : ℕ) × (v ≡ amount m) × (facts.amount_minor + facts.prior_same_day_category_spend_minor ≤ m)
IsMet eligibility v facts = Unit

apart : (a b : String) → (a == b) ≡ false → a ≢ b
apart a b differ same = let e = eq→== a b same in cc

-- A rank that a single approval reaches exactly when it meets the requirement is reached by the
-- highest of several exactly when one of them does.
highest_iff :
    (s : String) (n : ℕ)
    → ((r : ApprovalRole) → (leb (suc n) (approval_rank r) ≡ true) ↔ Approves s r)
    → (rs : List ApprovalRole) → (leb (suc n) (highest_rank rs) ≡ true) ↔ HasApproval s rs
highest_iff s n one [] = (λ h. absurd (omega (arith, leb→le (suc n) 0 h)), λ h. absurd h)
highest_iff s n one (r ∷ rs) =
    let rest = highest_iff s n one rs in
    (
      λ h. elim (Bool-cases (leb (suc n) (approval_rank r))) [
        | inl high ↦ inl ((one r).0 high)
        | inr low ↦ inr (rest.0 (ground arith))
      ],
      λ h. elim h [
        | inl a ↦ let high = (one r).1 a in ground arith
        | inr a ↦ let high = rest.1 a in ground arith
      ],
    )

manager_iff : (r : ApprovalRole) → (leb 1 (approval_rank r) ≡ true) ↔ Approves "manager" r
manager_iff ApprovalRole.manager = (λ h. refl, λ a. refl)
manager_iff ApprovalRole.director = (λ h. inl refl, λ a. refl)
manager_iff ApprovalRole.finance = (λ h. inl refl, λ a. refl)

director_iff : (r : ApprovalRole) → (leb 2 (approval_rank r) ≡ true) ↔ Approves "director" r
director_iff ApprovalRole.manager = (λ h. cc, λ a. absurd (apart "director" "manager" refl a))
director_iff ApprovalRole.director = (λ h. inr refl, λ a. refl)
director_iff ApprovalRole.finance = (λ h. inr (inl refl), λ a. refl)

finance_iff : (r : ApprovalRole) → (leb 3 (approval_rank r) ≡ true) ↔ Approves "finance" r
finance_iff ApprovalRole.manager = (λ h. cc, λ a. absurd (apart "finance" "manager" refl a))
finance_iff ApprovalRole.director = (
  λ h. cc,
  λ a. elim a [
    | inl e ↦ absurd (apart "finance" "manager" refl e)
    | inr e ↦ absurd (apart "finance" "director" refl e)
  ],
)
finance_iff ApprovalRole.finance = (λ h. inr (inr refl), λ a. refl)

-- How a rank is judged: against none at all, or by the approvals.
Judges : String → ℕ → Type 0
Judges s n =
    (rs : List ApprovalRole) → (leb n (highest_rank rs) ≡ true) ↔ ((s ≡ "none") ⊎ HasApproval s rs)

judges :
    (s : String) (n : ℕ)
    → s ≢ "none"
    → ((rs : List ApprovalRole) → (leb (suc n) (highest_rank rs) ≡ true) ↔ HasApproval s rs)
    → Judges s (suc n)
unfolding Judges
judges s n other h rs =
    (λ e. inr ((h rs).0 e), λ m. elim m [ inl e ↦ absurd (other e) | inr a ↦ (h rs).1 a ])

judged :
    (s : String)
    → elem approval_values s ≡ true
    → (n : ℕ) × (required_rank (text s) ≡ ok n) × Judges s n
unfolding Judges
judged s h = elim (elem-cons "none" s ("manager" ∷ "director" ∷ "finance" ∷ []) h) [
  | inl e ↦ rw (← e) (0, refl, λ rs. (λ l. inl refl, λ m. le→leb 0 (highest_rank rs) (omega arith)))
  | inr h1 ↦ elim (elem-cons "manager" s ("director" ∷ "finance" ∷ []) h1) [
    | inl e ↦ rw (← e) (
      1,
      refl,
      judges "manager" 0 (apart "manager" "none" refl) (highest_iff "manager" 0 manager_iff),
    )
    | inr h2 ↦ elim (elem-cons "director" s ("finance" ∷ []) h2) [
      | inl e ↦ rw (← e) (
        2,
        refl,
        judges "director" 1 (apart "director" "none" refl) (highest_iff "director" 1 director_iff),
      )
      | inr h3 ↦ elim (elem-cons "finance" s [] h3) [
        | inl e ↦ rw (← e) (
          3,
          refl,
          judges "finance" 2 (apart "finance" "none" refl) (highest_iff "finance" 2 finance_iff),
        )
        | inr h4 ↦ absurd (false≢true h4)
      ]
    ]
  ]
]

pub check_rank :
    (s : String) → elem approval_values s ≡ true → (n : ℕ) × (required_rank (text s) ≡ ok n)
check_rank s h = let (n, e, _) = judged s h in (n, e)

text_injective : (a b : String) → text a ≡ text b → a ≡ b
text_injective a b h = cc

status_iff :
    (b : Bool) (P : Type 0)
    → ((b ≡ true) ↔ P)
    → (compliance_status b ≡ ComplianceStatus.compliant) ↔ P
status_iff true P h = (λ e. h.0 refl, λ p. refl)
status_iff false P h = (λ e. cc, λ p. cc (h.1 p))

-- On facts in their domain a requirement with a valid value is always judged: the status is compliant
-- exactly when the facts meet the requirement, and noncompliant otherwise. An approval requirement
-- is met when it asks for none, or by an approval of the role that it names or of a higher one, in
-- the order manager, director, finance.
pub derive_compliance-exact :
    (dimension : EffectDimension) (v : EffectValue) (facts : ScenarioFacts)
    → dimension ≢ eligibility
    → validate_effect_value dimension v ≡ ok tt
    → IsInDomain facts
    → (compliant : Bool) × (derive_compliance dimension v facts
        ≡ ok (some (record { dimension = dimension; status = compliance_status compliant })))
      × ((compliant ≡ true) ↔ IsMet dimension v facts)
unfolding derive_compliance validate_effect_value Judges
derive_compliance-exact eligibility v facts n h d = absurd (n refl)
derive_compliance-exact receipt_requirement (text s) facts n h d = (
  s == "not_required" || facts.receipt_present,
  rw (validate_facts-of_IsInDomain facts d),
  (
    λ c. elim (or_cases (s == "not_required") facts.receipt_present c) [
      | inl e ↦ inl (ap text (==→eq s "not_required" e))
      | inr e ↦ inr e
    ],
    λ m. elim m [
      | inl e ↦ or_left (s == "not_required") facts.receipt_present (eq→== s "not_required" (cc))
      | inr e ↦ or_right (s == "not_required") facts.receipt_present e
    ],
  ),
)
derive_compliance-exact receipt_requirement (amount m) facts n h d = cc
derive_compliance-exact approval_requirement (text s) facts n h d =
    let (k, e, exact) = judged s (ground arith) in
    let judge = exact facts.approval_roles_present in
    (
      leb k (highest_rank facts.approval_roles_present),
      rw (validate_facts-of_IsInDomain facts d, e),
      (
        λ l. (s, refl, judge.0 l),
        λ (t, same, met). judge.1 (rw (← (text_injective s t same)) at met),
      ),
    )
derive_compliance-exact approval_requirement (amount m) facts n h d = cc
derive_compliance-exact claim_cap_minor (amount m) facts n h d = (
  leb facts.amount_minor m,
  rw (validate_facts-of_IsInDomain facts d),
  (λ l. (m, refl, ground arith), λ (j, ej, l). ground arith),
)
derive_compliance-exact claim_cap_minor (text s) facts n h d = cc
derive_compliance-exact daily_category_cap_minor (amount m) facts n h d = (
  leb (facts.amount_minor + facts.prior_same_day_category_spend_minor) m,
  rw (validate_facts-of_IsInDomain facts d),
  (λ l. (m, refl, ground arith), λ (j, ej, l). ground arith),
)
derive_compliance-exact daily_category_cap_minor (text s) facts n h d = cc
