-- ===== src/Evaluation/Findings/Groups.antt =====
-- `finding_fingerprint`, the groups of witnesses and `add`. Digests are parameters; dictionaries are
-- lists of entries in the order of insertion.
use policyfuzz.Prelude.{
  String, ◌++◌, List, [], ◌∷◌, distinct, sorted, ◌==◌, string_eq, Option, none, some, Outcome, ok,
  raised, key_error, ◌>>=◌, if◌then◌else◌,
}
use policyfuzz.Domain.Vocabulary.{EffectDimension, Severity}
use policyfuzz.Domain.Rule.{Rule, SourceSpan, text_citation, session_revision, UnsupportedClause}
use policyfuzz.Domain.Policy.{find_rule}
use policyfuzz.Domain.Intent.{Invariant}
use policyfuzz.Domain.Finding.{
  FindingType, structural_gap, conflict, intent_breach, regression, unsupported_clause,
  potential_loophole, EvidenceLevel, SeverityOrigin, TraceRef, Finding,
}
use policyfuzz.Evaluation.Engine.{ScenarioEvaluation}

-- The payloads of which the fingerprint is the digest
pub data FingerprintPayload : Type 0 where
  of_rules : FindingType → EffectDimension → (rule_ids : List String) → FingerprintPayload
  of_invariant : EffectDimension → (invariant_id : Option String) → FingerprintPayload
  of_span : EffectDimension → (source_span_sha256 : Option String) → FingerprintPayload
  of_assertion : EffectDimension → (assertion_id : Option String) → FingerprintPayload
  of_facts :
      EffectDimension
      → (rule_ids : List String) (invariant_id : Option String)
        (scenario_fact_sha256s : List String)
      → FingerprintPayload

abbrev sorted_set : List String → List String
sorted_set xs = sorted (distinct xs)

-- `payload` of `finding_fingerprint`
unfoldable pub fingerprint_payload :
    FindingType
    → EffectDimension
    → (rule_ids : List String) → (invariant_id assertion_id source_span_sha256 : Option String)
    → (scenario_fact_sha256s : List String) → FingerprintPayload
fingerprint_payload structural_gap d rs i a s fs = of_rules structural_gap d (sorted_set rs)
fingerprint_payload conflict d rs i a s fs = of_rules conflict d (sorted_set rs)
fingerprint_payload intent_breach d rs i a s fs = of_invariant d i
fingerprint_payload unsupported_clause d rs i a s fs = of_span d s
fingerprint_payload regression d rs i a s fs = of_assertion d a
fingerprint_payload potential_loophole d rs i a s fs = of_facts d (sorted_set rs) i (sorted_set fs)

-- One value of the dictionary `groups`
pub record Group : Type 0 where
  pub finding_id : String
  pub fingerprint_sha256 : String
  pub finding_type : FindingType
  pub dimension : EffectDimension
  pub rule_ids : List String
  pub invariant_id : Option String
  pub assertion_id : Option String
  pub evidence_level : EvidenceLevel
  pub severity : Option Severity
  pub severity_origin : Option SeverityOrigin
  pub witnesses : List (String × TraceRef)
  pub citations : List (String × SourceSpan)

module _ {A : Type 0} where
  -- `entries.get(key)`
  unfoldable pub value_at : String → List (String × A) → Option A
  value_at key [] = none
  value_at key ((k, a) ∷ rest) = if k == key then some a else value_at key rest

  -- `entries[key] = value`
  unfoldable pub set_at : String → A → List (String × A) → List (String × A)
  set_at key value [] = (key, value) ∷ []
  set_at key value ((k, a) ∷ rest) =
      if k == key then (k, value) ∷ rest else (k, a) ∷ set_at key value rest

-- The digests that the analysis takes
pub record FindingDigests : Type 0 where
  pub fingerprint_hash : FingerprintPayload → String
  pub span_hash : SourceSpan → String
  pub finding_name : String → String
  pub report_name : List Finding → String

-- The arguments of `add` after the result
pub record Cause : Type 0 where
  pub finding_type : FindingType
  pub dimension : EffectDimension
  pub rule_ids : List String
  pub invariant_id : Option String
  pub assertion_id : Option String
  pub clause : Option UnsupportedClause

abbrev pub level_of : Option String → Option UnsupportedClause → EvidenceLevel
level_of (some i) c = EvidenceLevel.session_confirmed
level_of none (some c) = EvidenceLevel.candidate
level_of none none = EvidenceLevel.mechanically_reproduced

abbrev pub origin_of : Option String → Option SeverityOrigin
origin_of none = none
origin_of (some i) = some SeverityOrigin.session_invariant

-- `invariants[invariant_id].severity`
unfoldable pub severity_at : String → List Invariant → Outcome (Option Severity)
severity_at id [] = raised key_error
severity_at id (i ∷ is) = if i.invariant_id == id then ok (some i.severity) else severity_at id is

abbrev pub severity_of : Option String → List Invariant → Outcome (Option Severity)
severity_of none is = ok none
severity_of (some id) is = severity_at id is

abbrev cited_span : Option Rule → List SourceSpan
cited_span none = []
cited_span (some rule) = elim rule.provenance [
  | text_citation c span ↦ span ∷ []
  | session_revision p i t c ↦ []
]

abbrev rule_spans : List Rule → List String → List SourceSpan
rule_spans rules [] = []
rule_spans rules (id ∷ ids) = cited_span (find_rule id rules) ++ rule_spans rules ids

abbrev spans_of : List Rule → List String → Option UnsupportedClause → List SourceSpan
spans_of rules ids (some c) = c.span ∷ []
spans_of rules ids none = rule_spans rules ids

module _ (digests : FindingDigests) (rules : List Rule) (invariants : List Invariant) where
  abbrev clause_hash : Option UnsupportedClause → Option String
  clause_hash none = none
  clause_hash (some c) = some (digests.span_hash c.span)

  abbrev pub fingerprint_of : Cause → String
  fingerprint_of c = digests.fingerprint_hash (
      fingerprint_payload c.finding_type c.dimension c.rule_ids c.invariant_id c.assertion_id
        (clause_hash c.clause) [])

  abbrev pub new_group : Cause → Option Severity → Group
  new_group c severity = record {
    finding_id = digests.finding_name (fingerprint_of c);
    fingerprint_sha256 = fingerprint_of c;
    finding_type = c.finding_type;
    dimension = c.dimension;
    rule_ids = sorted_set c.rule_ids;
    invariant_id = c.invariant_id;
    assertion_id = c.assertion_id;
    evidence_level = level_of c.invariant_id c.clause;
    severity = severity;
    severity_origin = origin_of c.invariant_id;
    witnesses = [];
    citations = [];
  }

  abbrev pub cite : List SourceSpan → List (String × SourceSpan) → List (String × SourceSpan)
  cite [] entries = entries
  cite (s ∷ ss) entries = cite ss (set_at (digests.span_hash s) s entries)

  abbrev pub witnessed : ScenarioEvaluation → Cause → Group → Group
  witnessed r c g = record g {
    witnesses =
        set_at r.scenario_id
          (record { scenario_id = r.scenario_id; trace_sha256 = r.trace.trace_sha256 }) g.witnesses;
    citations = cite (spans_of rules c.rule_ids c.clause) g.citations;
  }

  -- The group under the fingerprint, a new one where there is none
  abbrev pub group_for : Cause → Option Group → Outcome Group
  group_for c (some g) = ok g
  group_for c none = severity_of c.invariant_id invariants >>= λ severity. ok (new_group c severity)

  -- `add`
  unfoldable pub add :
      ScenarioEvaluation → Cause → List (String × Group) → Outcome (List (String × Group))
  unfolding fingerprint_payload value_at set_at severity_at find_rule
  add r c groups = do
    g ← group_for c (value_at (fingerprint_of c) groups)
    ok (set_at (fingerprint_of c) (witnessed r c g) groups)
