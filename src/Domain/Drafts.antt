-- ===== src/Domain/Drafts.antt =====
-- backend/app/domain/models: the validators that are run again for every rule and every unsupported
-- clause of a policy (policy.py), with those of spans and texts (common.py).
use policyfuzz.Prelude.{
  String, not, ◌&&◌, List, [], ◌∷◌, any, elem, is_empty, leb, ltb, ◌==◌, string_eq, Outcome, ok,
  require, each_ok, ◌>>◌, Option, none, some, ℕ,
}
use Prim.Native.String.{count}
use policyfuzz.Domain.Vocabulary.{field_eq, daily_category_total_minor}
use policyfuzz.Domain.Predicate.{Predicate, typed_predicate}
use policyfuzz.Domain.Digest.{sha256}
use policyfuzz.Domain.Rule.{
  Rule, Effect, SourceSpan, RuleProvenance, text_citation, session_revision, UnsupportedClause,
  validate_effect_value, executable_conditions,
}
pub mod Parts
pub mod Exact

-- `Identifier`
abbrev pub identifier : String → Outcome (Unit {0})
identifier s = require (leb 1 (count s) && leb (count s) 200) "string length is out of range"

-- `NonEmptyText`
abbrev pub nonempty_text : String → Outcome (Unit {0})
nonempty_text s = require (leb 1 (count s)) "string should have at least 1 character"

abbrev pub optional_text : Option String → Outcome (Unit {0})
optional_text none = ok tt
optional_text (some s) = nonempty_text s

-- `SourceSpan`, whose own validator is the last line, `ordered_range`
unfoldable pub validate_span : SourceSpan → Outcome (Unit {0})
validate_span span = do
  require (leb 1 span.page) "input should be greater than or equal to 1"
  nonempty_text span.quote
  sha256 span.quote_sha256
  optional_text span.section
  require (ltb span.start span.end) "source span must have end > start"

unfoldable pub validate_provenance : RuleProvenance → Outcome (Unit {0})
unfolding validate_span
validate_provenance (text_citation citation_id span) = identifier citation_id >> validate_span span
validate_provenance (session_revision proposal_id operation_index confirmed_at citation_ids) = do
  identifier proposal_id
  require (leb operation_index 2) "input should be less than or equal to 2"
  each_ok identifier citation_ids
  require (not (is_empty citation_ids)) "tuple should have at least 1 item"

abbrev pub validate_effect : Effect → Outcome (Unit {0})
validate_effect e = validate_effect_value e.dimension e.value

abbrev pub percentage : Option ℕ → Outcome (Unit {0})
percentage none = ok tt
percentage (some n) = require (leb n 100) "input should be less than or equal to 100"

-- `Rule`: its fields in their order, and then `executable_conditions`.
unfoldable pub validate_rule : Rule → Outcome (Unit {0})
unfolding validate_provenance
validate_rule rule = do
  nonempty_text rule.description
  each_ok typed_predicate rule.when
  each_ok validate_effect rule.effects
  require (not (is_empty rule.effects)) "tuple should have at least 1 item"
  each_ok (λ e. identifier e.target_rule_id) rule.overrides
  validate_provenance rule.provenance
  percentage rule.confidence_percent
  identifier rule.rule_id
  executable_conditions rule

-- The hint of a clause, when it has one.
abbrev pub hint_of : Option (List Predicate) → List Predicate
hint_of none = []
hint_of (some hint) = hint

-- `UnsupportedClause.supported_hint`
abbrev pub supported_hint : UnsupportedClause → Outcome (Unit {0})
supported_hint clause =
    require (not (any (λ p. p.field == daily_category_total_minor) (hint_of clause.when_hint)))
      "unsupported-clause hints use stored facts only"

abbrev pub reason_codes : List String
reason_codes =
    "unsupported_vocabulary" ∷ "unsupported_logic" ∷ "ambiguous_language" ∷ "invalid_citation"
    ∷ "unsupported_aggregation" ∷ "unsupported_currency" ∷ []

unfoldable pub validate_clause : UnsupportedClause → Outcome (Unit {0})
unfolding validate_span
validate_clause clause = do
  identifier clause.clause_id
  validate_span clause.span
  require (elem reason_codes clause.reason_code) "input is not a reason code"
  require (not (is_empty clause.affected_dimensions)) "set should have at least 1 item"
  each_ok typed_predicate (hint_of clause.when_hint)
  supported_hint clause
