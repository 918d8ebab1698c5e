-- ===== src/Domain/Rule.antt =====
-- backend/app/domain/models/policy.py: effects, provenance, overrides, rules and unsupported
-- clauses, with their validators. A timestamp is its text.
use policyfuzz.Prelude.{
  String, ℕ, ◌≡◌, ◌↔◌, Bool, true, false, not, ◌&&◌, ◌||◌, List, [], ◌∷◌, any, all, map, elem,
  has_duplicates, ◌==◌, Eq, string_eq, nat_eq, ap, ==→eq, eq→==, pos, Outcome, require, ◌>>◌,
  Option, arith,
}
use policyfuzz.Domain.Vocabulary.{
  EffectDimension, eligibility, receipt_requirement, approval_requirement, claim_cap_minor,
  daily_category_cap_minor, dimension_eq, field_eq, daily_category_total_minor,
}
use policyfuzz.Domain.Value.{Value, str, int}
use policyfuzz.Domain.Predicate.{Predicate}

-- `EffectValue`: a text of a closed vocabulary, or a `NonNegativeInt`.
pub data EffectValue : Type 0 where
  text : String → EffectValue
  amount : ℕ → EffectValue

abbrev effect_value_beq : EffectValue → EffectValue → Bool
effect_value_beq (text a) (text b) = a == b
effect_value_beq (amount a) (amount b) = a == b
effect_value_beq _ _ = false

text_injective : (a b : String) → text a ≡ text b → a ≡ b
text_injective a b h = cc

pub effect_value_beq_iff : (a b : EffectValue) → (effect_value_beq a b ≡ true) ↔ (a ≡ b)
effect_value_beq_iff (text a) (text b) =
    (λ h. ap text (==→eq a b h), λ h. eq→== a b (text_injective a b h))
effect_value_beq_iff (amount a) (amount b) = ground arith
effect_value_beq_iff (text a) (amount b) = (λ h. cc, λ h. cc)
effect_value_beq_iff (amount a) (text b) = (λ h. cc, λ h. cc)

instance abbrev pub effect_value_eq : Eq EffectValue
effect_value_eq = record { beq = effect_value_beq; beq_iff = effect_value_beq_iff }

-- The value as an operand of the operator table.
abbrev pub operand : EffectValue → Value
operand (text s) = str s
operand (amount n) = int (pos n)

-- `_EFFECT_VALUES[dimension]`
abbrev eligibility_values : List String
eligibility_values = "allow" ∷ "deny" ∷ []

abbrev receipt_values : List String
receipt_values = "required" ∷ "not_required" ∷ []

abbrev pub approval_values : List String
approval_values = "none" ∷ "manager" ∷ "director" ∷ "finance" ∷ []

abbrev is_one_of : List String → EffectValue → Bool
is_one_of ss (text s) = elem ss s
is_one_of ss (amount n) = false

abbrev is_amount : EffectValue → Bool
is_amount (text s) = false
is_amount (amount n) = true

abbrev categorical : List String → EffectValue → Outcome (Unit {0})
categorical ss v = require (is_one_of ss v) "value is incompatible with effect dimension"

abbrev cap : EffectValue → Outcome (Unit {0})
cap v = require (is_amount v) "cap effect requires a nonnegative integer"

unfoldable pub validate_effect_value : EffectDimension → EffectValue → Outcome (Unit {0})
validate_effect_value eligibility v = categorical eligibility_values v
validate_effect_value receipt_requirement v = categorical receipt_values v
validate_effect_value approval_requirement v = categorical approval_values v
validate_effect_value claim_cap_minor v = cap v
validate_effect_value daily_category_cap_minor v = cap v

-- `dimension in _EFFECT_VALUES`
abbrev pub is_categorical : EffectDimension → Bool
is_categorical claim_cap_minor = false
is_categorical daily_category_cap_minor = false
is_categorical _ = true

pub record Effect : Type 0 where
  pub dimension : EffectDimension
  pub value : EffectValue

pub record SourceSpan : Type 0 where
  pub page : ℕ
  pub start : ℕ
  pub end : ℕ
  pub quote : String
  pub quote_sha256 : String
  pub section : Option String

pub data RuleProvenance : Type 0 where
  text_citation : (citation_id : String) (span : SourceSpan) → RuleProvenance
  session_revision :
      (proposal_id : String) (operation_index : ℕ) (confirmed_at : String)
      (baseline_citation_ids : List String)
      → RuleProvenance

pub record OverrideRef : Type 0 where
  pub dimension : EffectDimension
  pub target_rule_id : String

abbrev pub override_beq : OverrideRef → OverrideRef → Bool
override_beq a b = a.dimension == b.dimension && a.target_rule_id == b.target_rule_id

-- `RuleDraft` and the two fields that `Rule` adds
pub record Rule : Type 0 where
  pub description : String
  pub when : List Predicate
  pub effects : List Effect
  pub overrides : List OverrideRef
  pub provenance : RuleProvenance
  pub confidence_percent : Option ℕ
  pub rule_id : String
  pub revision : ℕ

abbrev pub dimensions : List Effect → List EffectDimension
dimensions effects = map (λ e. e.dimension) effects

abbrev pub repeats : List OverrideRef → Bool
repeats [] = false
repeats (e ∷ es) = any (override_beq e) es || repeats es

unfoldable pub executable_conditions : Rule → Outcome (Unit {0})
executable_conditions rule = do
  require (not (any (λ p. p.field == daily_category_total_minor) rule.when))
      "daily_category_total_minor is invariant-only"
  require (not (has_duplicates (dimensions rule.effects)))
      "a rule supplies at most one value per dimension"
  require (all (λ e. elem (dimensions rule.effects) e.dimension) rule.overrides)
      "an override must target a dimension supplied by this rule"
  require (not (repeats rule.overrides)) "duplicate override"

pub record UnsupportedClause : Type 0 where
  pub clause_id : String
  pub span : SourceSpan
  pub reason_code : String
  pub affected_dimensions : List EffectDimension
  pub when_hint : Option (List Predicate)

-- `any(e.dimension == dimension for e in r.effects)`
abbrev pub supplies : Rule → EffectDimension → Bool
supplies rule dimension = any (λ e. e.dimension == dimension) rule.effects
