-- ===== src/Domain/Finding.antt =====
-- backend/app/domain/models/evaluation.py: findings and their validator, and the hashes of the
-- inputs (backend/app/domain/models/common.py).
use policyfuzz.Prelude.{
  String, Bool, true, false, not, ◌&&◌, ◌||◌, List, map, is_empty, subset, ◌==◌, Eq, Eq-of_discrete,
  string_eq, Option, some, Outcome, require, ◌>>◌,
}
use policyfuzz.Domain.Vocabulary.{EffectDimension, Severity}
use policyfuzz.Domain.Rule.{SourceSpan}
use policyfuzz.Domain.Intent.{is_some}

pub record InputHashes : Type 0 where
  pub policy_sha256 : String
  pub contract_sha256 : String
  pub suite_sha256 : String
  pub engine_sha256 : String
  pub run_manifest_sha256 : String

-- `==` on the model
abbrev pub same_inputs : InputHashes → InputHashes → Bool
same_inputs a b =
    a.policy_sha256 == b.policy_sha256
    && (a.contract_sha256 == b.contract_sha256
        && (a.suite_sha256 == b.suite_sha256
            && (a.engine_sha256 == b.engine_sha256
                && a.run_manifest_sha256 == b.run_manifest_sha256)))

pub data FindingType : Type 0 where
  structural_gap conflict intent_breach regression unsupported_clause potential_loophole :
      FindingType

unfoldable pub FindingType-discrete : Discrete FindingType
FindingType-discrete = hlevel

instance abbrev pub finding_type_eq : Eq FindingType
unfolding FindingType-discrete
finding_type_eq = Eq-of_discrete FindingType-discrete

pub data EvidenceLevel : Type 0 where
  mechanically_reproduced session_confirmed candidate : EvidenceLevel

pub data FindingReviewStatus : Type 0 where
  pending accepted rejected : FindingReviewStatus

pub data SeverityOrigin : Type 0 where
  session_invariant session_reviewer : SeverityOrigin

pub record TraceRef : Type 0 where
  pub scenario_id : String
  pub trace_sha256 : String

pub record Finding : Type 0 where
  pub finding_id : String
  pub fingerprint_sha256 : String
  pub finding_type : FindingType
  pub evidence_level : EvidenceLevel
  pub scenario_ids : List String
  pub rule_ids : List String
  pub invariant_id : Option String
  pub assertion_id : Option String
  pub dimension : EffectDimension
  pub traces : List TraceRef
  pub citations : List SourceSpan
  pub review_status : FindingReviewStatus
  pub severity : Option Severity
  pub severity_origin : Option SeverityOrigin

abbrev pub is_candidate : EvidenceLevel → Bool
is_candidate candidate = true
is_candidate _ = false

abbrev pub from_invariant : Option SeverityOrigin → Bool
from_invariant (some session_invariant) = true
from_invariant _ = false

-- `{trace.scenario_id for trace in self.traces}`, as a list
abbrev pub traced : Finding → List String
traced f = map (λ t. t.scenario_id) f.traces

-- `==` on sets of texts
abbrev pub same_set : List String → List String → Bool
same_set xs ys = subset xs ys && subset ys xs

abbrev pub implies : Bool → Bool → Bool
implies a b = not a || b

-- `Finding.supported_evidence`, with the two tuples that must not be empty
unfoldable pub supported_evidence : Finding → Outcome (Unit {0})
unfolding FindingType-discrete
supported_evidence f = do
  require (not (is_empty f.scenario_ids) && not (is_empty f.traces)) "at least one witness"
  require
      (implies (is_some f.severity) (is_some f.severity_origin)
        && implies (is_some f.severity_origin) (is_some f.severity))
      "severity requires an independent severity origin"
  require (implies (from_invariant f.severity_origin) (is_some f.invariant_id))
      "invariant severity requires an invariant reference"
  require
      (implies (f.finding_type == FindingType.potential_loophole) (is_candidate f.evidence_level))
      "potential loopholes remain review candidates"
  require (implies (is_candidate f.evidence_level) (not (is_some f.severity)))
      "candidate findings cannot carry authoritative severity"
  require (implies (f.finding_type == FindingType.intent_breach) (is_some f.invariant_id))
      "intent breach requires an invariant"
  require (implies (f.finding_type == FindingType.regression) (is_some f.assertion_id))
      "regression requires an assertion"
  require (same_set f.scenario_ids (traced f)) "each witness requires a trace reference"

pub record FindingReport : Type 0 where
  pub report_id : String
  pub inputs : InputHashes
  pub findings : List Finding
