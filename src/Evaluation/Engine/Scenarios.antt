-- ===== src/Evaluation/Engine/Scenarios.antt =====
-- `evaluate_scenario` with its exception handler. The digests of citations and traces come from
-- SHA-256 over canonical JSON, and are parameters.
use policyfuzz.Prelude.{
  String, ℕ, suc, Bool, true, false, not, ◌&&◌, ◌||◌, List, [], ◌∷◌, ◌++◌, map, keep, any, elem,
  is_empty, distinct, sorted_by, ◌==◌, string_eq, Exception, value_error, key_error,
  recursion_error, stop_iteration, Outcome, ok, raised, ◌>>=◌, ◌>>◌, map_ok, each_ok, require,
  Option, none, some, if◌then◌else◌,
}
use policyfuzz.Domain.Vocabulary.{
  EffectDimension, dimension_eq, effect_dimensions, EffectStatus, effect_status_eq, AssertionStatus,
  assertion_status_eq, ComplianceStatus,
}
use policyfuzz.Domain.Rule.{Rule, RuleProvenance}
use policyfuzz.Domain.Policy.{PolicyIr}
use policyfuzz.Domain.Facts.{ScenarioFacts, validate_facts}
use policyfuzz.Domain.Intent.{
  Assertion, Invariant, PolicyContract, assertion_beq, typed_assertion, independent_assertion,
}
use policyfuzz.Domain.Scenario.{Scenario, independent_assertions}
use policyfuzz.Evaluation.Predicates.{
  PredicateTrace, RuleTrace, rule_matches, evaluate_conditions, all_matched,
}
use policyfuzz.Evaluation.Resolution.{DimensionResult, resolve_dimension}
use policyfuzz.Evaluation.Compliance.{ComplianceResult, derive_compliance, is_eligibility}
use policyfuzz.Evaluation.Assertions.{AssertionResult, evaluate_assertion}

pub data Verdict : Type 0 where
  pass fail unscored inconclusive error : Verdict

pub record PredicateResult : Type 0 where
  pub rule_id : String
  pub predicate_index : ℕ
  pub matched : Bool

pub record EvaluationTrace : Type 0 where
  pub scenario_id : String
  pub fired_rule_ids : List String
  pub predicate_results : List PredicateResult
  pub resolved_effects : List DimensionResult
  pub compliance_values : List ComplianceResult
  pub source_citations : List RuleProvenance
  pub trace_sha256 : String

pub record ScenarioEvaluation : Type 0 where
  pub scenario_id : String
  pub trace : EvaluationTrace
  pub assertion_results : List AssertionResult
  pub verdict : Verdict
  pub failed_input : Bool

-- `matched_invariants`
unfoldable pub matched_invariants : List Invariant → ScenarioFacts → Outcome (List Invariant)
matched_invariants [] facts = ok []
matched_invariants (i ∷ is) facts = do
  traces ← evaluate_conditions i.when facts
  rest ← matched_invariants is facts
  ok (if all_matched traces then i ∷ rest else rest)

abbrev pub find_assertion : String → List Assertion → Option Assertion
find_assertion id [] = none
find_assertion id (a ∷ rest) = if a.assertion_id == id then some a else find_assertion id rest

-- The dictionary of assertions, extended by those of the matched invariants. An assertion under a
-- known identifier must be the same, so the entry that is there can stay.
unfoldable pub merge_assertions : List Assertion → List Invariant → Outcome (List Assertion)
merge_assertions known [] = ok known
merge_assertions known (i ∷ is) = elim (find_assertion i.assertion.assertion_id known) [
  | none ↦ merge_assertions (known ++ i.assertion ∷ []) is
  | some a ↦
      if assertion_beq a i.assertion
      then merge_assertions known is
      else raised (value_error "conflicting frozen/invariant assertion identity")
]

unfoldable pub scenario_assertions : PolicyContract → Scenario → Outcome (List Assertion)
unfolding matched_invariants merge_assertions
scenario_assertions contract scenario = do
  invariants ← matched_invariants contract.invariants scenario.facts
  merged ← merge_assertions scenario.assertions invariants
  ok (sorted_by (λ a. a.assertion_id) merged)

-- backend/app/features/evaluation/resolution.py
unfoldable pub scenario_required_dimensions :
    Scenario → PolicyContract → List Invariant → List EffectDimension
scenario_required_dimensions scenario contract invariants = distinct (
    contract.required_dimensions
    ++ (map (λ a. a.dimension) scenario.assertions
        ++ map (λ i. i.assertion.dimension)
            (keep (λ i. elem (map (λ m. m.invariant_id) invariants) i.invariant_id)
              contract.invariants)))

abbrev carried : EffectStatus → ComplianceStatus
carried EffectStatus.error = ComplianceStatus.error
carried EffectStatus.not_applicable = ComplianceStatus.not_applicable
carried _ = ComplianceStatus.inconclusive

-- The compliance of a requirement dimension: derived from a value, carried over from another status.
-- A validated result has a value exactly when its status is VALUE.
abbrev pub compliance_of : DimensionResult → ScenarioFacts → Outcome (List ComplianceResult)
compliance_of d facts = elim d.value [
  | some v ↦
      (derive_compliance d.dimension v facts >>= λ c. ok (elim c [ none ↦ [] | some r ↦ r ∷ [] ]))
  | none ↦ ok ((record { dimension = d.dimension; status = carried d.status }) ∷ [])
]

unfoldable pub all_compliance :
    List DimensionResult → ScenarioFacts → Outcome (List ComplianceResult)
all_compliance [] facts = ok []
all_compliance (d ∷ ds) facts = do
  mine ← (if is_eligibility d.dimension then ok [] else compliance_of d facts)
  rest ← all_compliance ds facts
  ok (mine ++ rest)

abbrev pub numbered : String → ℕ → List PredicateTrace → List PredicateResult
numbered id index [] = []
numbered id index (p ∷ ps) =
    record { rule_id = id; predicate_index = index; matched = p.matched }
    ∷ numbered id (suc index) ps

abbrev pub all_numbered : List RuleTrace → List PredicateResult
all_numbered [] = []
all_numbered (t ∷ ts) = numbered t.rule_id 0 t.predicates ++ all_numbered ts

-- The first of ERROR, FAIL and INCONCLUSIVE that occurs, else PASS, or UNSCORED without assertions.
unfoldable pub verdict_of : List AssertionResult → Verdict
verdict_of results =
    if any (λ r. r.status == AssertionStatus.error) results
    then Verdict.error
    else if any (λ r. r.status == AssertionStatus.fail) results
    then Verdict.fail
    else if any (λ r. r.status == AssertionStatus.inconclusive) results
    then Verdict.inconclusive
    else if is_empty results
    then Verdict.unscored
    else Verdict.pass

-- `Scenario.model_validate(scenario)`: the validators of its parts and its own.
abbrev pub validate_scenario : Scenario → Outcome (Unit {0})
validate_scenario scenario = do
  validate_facts scenario.facts
  each_ok (λ a. typed_assertion a >> independent_assertion a) scenario.assertions
  independent_assertions scenario

abbrev passes : Verdict → Bool
passes Verdict.pass = true
passes _ = false

abbrev fails : Verdict → Bool
fails Verdict.fail = true
fails _ = false

-- `ScenarioEvaluation.scored_verdict_requires_assertion`
unfoldable pub scored_verdict_requires_assertion : ScenarioEvaluation → Outcome (Unit {0})
scored_verdict_requires_assertion e = do
  require (e.trace.scenario_id == e.scenario_id) "trace must belong to this scenario"
  require (not ((passes e.verdict || fails e.verdict) && is_empty e.assertion_results))
      "PASS or FAIL requires an independent assertion result"
  require
      (not
        (passes e.verdict && any (λ r. not (r.status == AssertionStatus.pass)) e.assertion_results))
      "PASS cannot contain unsuccessful assertions"
  require
      (not
        (fails e.verdict && not (any (λ r. r.status == AssertionStatus.fail) e.assertion_results)))
      "FAIL requires a failed assertion"

abbrev pub validated : ScenarioEvaluation → Outcome ScenarioEvaluation
validated e = scored_verdict_requires_assertion e >> ok e

module _ (canonical_sha256 : RuleProvenance → String)
    (payload_hash : EvaluationTrace → String) where
  abbrev pub hashed : EvaluationTrace → EvaluationTrace
  hashed t = record t { trace_sha256 = payload_hash t }

  -- `{canonical_sha256(r.provenance): r.provenance}` as pairs of one entry for each digest, sorted.
  abbrev cited : List String → List Rule → List RuleProvenance
  cited fired [] = []
  cited fired (r ∷ rs) =
      if elem fired r.rule_id then r.provenance ∷ cited fired rs else cited fired rs

  abbrev one_each : List RuleProvenance → List RuleProvenance
  one_each [] = []
  one_each (p ∷ ps) =
      if any (λ q. canonical_sha256 q == canonical_sha256 p) ps
      then one_each ps
      else p ∷ one_each ps

  abbrev no_digest : String
  no_digest = "0000000000000000000000000000000000000000000000000000000000000000"

  -- The body of the `try`.
  unfoldable pub evaluate_checked :
      PolicyIr → PolicyContract → Scenario → Outcome ScenarioEvaluation
  unfolding matched_invariants all_compliance
  evaluate_checked policy contract scenario = do
    validate_scenario scenario
    invariants ← matched_invariants contract.invariants scenario.facts
    assertions ← scenario_assertions contract scenario
    traces ← map_ok (λ r. rule_matches r scenario.facts) (sorted_by (λ r. r.rule_id) policy.rules)
    let required = scenario_required_dimensions scenario contract invariants
    dimensions ←
        map_ok (λ d. resolve_dimension d policy scenario.facts required traces) effect_dimensions
    compliance ← all_compliance dimensions scenario.facts
    let fired = map (λ t. t.rule_id) (keep (λ t. t.matched) traces)
    results ← map_ok (λ a. evaluate_assertion a dimensions compliance) assertions
    validated (record {
      scenario_id = scenario.scenario_id;
      trace = hashed (record {
        scenario_id = scenario.scenario_id;
        fired_rule_ids = fired;
        predicate_results = all_numbered traces;
        resolved_effects = dimensions;
        compliance_values = compliance;
        source_citations = sorted_by canonical_sha256 (one_each (cited fired policy.rules));
        trace_sha256 = no_digest;
      });
      assertion_results = results;
      verdict = verdict_of results;
      failed_input = false;
    })

  abbrev failed_dimension : EffectDimension → DimensionResult
  failed_dimension d = record {
    dimension = d;
    status = EffectStatus.error;
    value = none;
    conflicting_values = [];
    applicable_rule_ids = [];
    overridden_rule_ids = [];
    unsupported_clause_ids = [];
  }

  abbrev failed_compliance : EffectDimension → ComplianceResult
  failed_compliance d = record { dimension = d; status = ComplianceStatus.error }

  abbrev pub failed : Scenario → ScenarioEvaluation
  failed scenario = record {
    scenario_id = scenario.scenario_id;
    trace = hashed (record {
      scenario_id = scenario.scenario_id;
      fired_rule_ids = [];
      predicate_results = [];
      resolved_effects = map failed_dimension effect_dimensions;
      compliance_values =
          map failed_compliance (keep (λ d. not (is_eligibility d)) effect_dimensions);
      source_citations = [];
      trace_sha256 = no_digest;
    });
    assertion_results = [];
    verdict = Verdict.error;
    failed_input = true;
  }

  -- `except (ValueError, TypeError, AttributeError)`: the two validation errors are value errors.
  abbrev pub handled : Exception → ScenarioEvaluation → Outcome ScenarioEvaluation
  handled key_error r = raised key_error
  handled recursion_error r = raised recursion_error
  handled stop_iteration r = raised stop_iteration
  handled _ r = ok r

  unfoldable pub evaluate_scenario :
      PolicyIr → PolicyContract → Scenario → Outcome ScenarioEvaluation
  unfolding evaluate_checked
  evaluate_scenario policy contract scenario = elim (evaluate_checked policy contract scenario) [
    | ok r ↦ ok r
    | raised e ↦ handled e (failed scenario)
  ]
