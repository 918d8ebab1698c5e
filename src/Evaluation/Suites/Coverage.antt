-- ===== src/Evaluation/Suites/Coverage.antt =====
-- `evaluate` answers every valid request, and what its coverage says.
use text.Mathlib.TextEquality.{eq_iff}
use policyfuzz.Prelude.{
  String, ◌≡◌, refl, ◌∙◌, ap, Bool, true, false, not, ◌&&◌, List, [], ◌∷◌, map, keep, any, elem,
  distinct, has_duplicates, is_empty, length, leb, ◌==◌, ==_refl, string_eq, arith, All,
  All-sorted_by, Outcome, ok, require, require->>, >>=-eq-ok, each_ok, map_ok, sorted_by,
  elem-sorted, elem-keep, elem-distinct_eq, has_duplicates-sorted_by,
}
use policyfuzz.Domain.Rule.{Rule}
use policyfuzz.Domain.Policy.{rule_ids}
use policyfuzz.Domain.Intent.{Invariant, unique_invariants}
use policyfuzz.Domain.Scenario.{Scenario, unique_scenarios}
use policyfuzz.Evaluation.Engine.{ScenarioEvaluation, evaluate_scenario}
use policyfuzz.Evaluation.RuleValidation.{validate_rule_set}
use policyfuzz.Evaluation.RuleValidation.Exact.{validate_rule_set-exact}
use policyfuzz.Evaluation.Reports.{EvaluationReport, unique_results}
use policyfuzz.Evaluation.Suites.Evidence.{
  CoverageKey, rule_key, invariant_key, branch_key, key_eq, Evidence, keys, rule_names,
  invariant_ids, snapshot, sorted_items,
}
use policyfuzz.Evaluation.Suites.Bounds.{bounded_counts-snapshot, coordinates-evidence_item}
use policyfuzz.Evaluation.Suites.Results.{evaluate_scenario-returns}
use policyfuzz.Evaluation.Suites.Collection.{has_fired, IsCollectable, collect-Collected}
use policyfuzz.Evaluation.Suites.Defs.{
  EvaluatePolicyRequest, Digests, validate_contract, validate_invariant,
  validate_evaluation_anchors, find_scenario, evaluate, report_of,
}

abbrev scenario_ids : List Scenario → List String
scenario_ids ss = map (λ s. s.scenario_id) ss

abbrev result_ids : List ScenarioEvaluation → List String
result_ids rs = map (λ r. r.scenario_id) rs

-- The first scenario under an identifier, where identifiers are unique, is the scenario itself.
others_found :
    (x : Scenario) (full ss : List Scenario)
    → elem (scenario_ids ss) x.scenario_id ≡ false
    → All (λ s. find_scenario s.scenario_id full ≡ ok s) ss
    → All (λ s. find_scenario s.scenario_id (x ∷ full) ≡ ok s) ss
unfolding find_scenario
others_found x full [] new h = tt
others_found x full (s ∷ ss) new h = (
  (let other : (x.scenario_id == s.scenario_id) ≡ false =
        ground (arith, eq_iff x.scenario_id s.scenario_id, eq_iff s.scenario_id x.scenario_id) in
      rw other h.0),
  others_found x full ss (ground arith) h.1,
)

each_found :
    (ss : List Scenario)
    → has_duplicates (scenario_ids ss) ≡ false
    → All (λ s. find_scenario s.scenario_id ss ≡ ok s) ss
unfolding find_scenario
each_found [] h = tt
each_found (s ∷ ss) h = (
  rw (==_refl s.scenario_id) refl,
  others_found s ss ss (ground arith) (each_found ss (ground arith)),
)

elem-rule_names :
    (ks : List CoverageKey) (id : String) → elem (rule_names ks) id ≡ elem ks (rule_key id)
elem-rule_names [] id = refl
elem-rule_names (rule_key x ∷ ks) id = ground (arith, elem-rule_names ks id)
elem-rule_names (invariant_key x ∷ ks) id = elem-rule_names ks id
elem-rule_names (branch_key x i b ∷ ks) id = elem-rule_names ks id

elem-missing :
    (rules : List Rule) (invariants : List Invariant) (e : Evidence) (id : String)
    → elem (snapshot rules invariants e).missing_rule_ids id
      ≡ (not (elem (keys e) (rule_key id)) && elem (rule_ids rules) id)
unfolding snapshot
elem-missing rules invariants e id =
    let covered = distinct (rule_names (keys e)) in
    let listed = elem-sorted (keep (λ x. not (elem covered x)) (rule_ids rules)) id in
    let kept = elem-keep (λ x. not (elem covered x)) (rule_ids rules) id in
    let named = elem-distinct_eq (rule_names (keys e)) id ∙ elem-rule_names (keys e) id in
    listed ∙ kept ∙ ap (λ b. not b && elem (rule_ids rules) id) named

module _ (digests : Digests) (request : EvaluatePolicyRequest) where
  abbrev run_scenario : Scenario → Outcome ScenarioEvaluation
  run_scenario s =
      evaluate_scenario digests.provenance_hash digests.trace_hash request.policy request.contract s

  record Evaluated (ss : List Scenario) : Type 0 where
    results : List ScenarioEvaluation
    returned : map_ok run_scenario ss ≡ ok results
    listed : result_ids results ≡ scenario_ids ss
    collectable : All (IsCollectable request) results

  evaluate_each :
      (ss : List Scenario)
      → All (λ s. find_scenario s.scenario_id request.suite.scenarios ≡ ok s) ss
      → Evaluated ss
  evaluate_each [] h = record { results = []; returned = refl; listed = refl; collectable = tt }
  evaluate_each (s ∷ ss) h =
      let (r, answered, result) =
        evaluate_scenario-returns digests.provenance_hash digests.trace_hash request.policy
          request.contract s in
      let rest = evaluate_each ss h.1 in
      record {
        results = r ∷ rest.results;
        returned = rw (answered, rest.returned) refl;
        listed = rw (result.named, rest.listed) refl;
        collectable = (
          record {
            traced = result.traced;
            matched = λ fine.
                let (is, found) = result.matched fine in (s, rw result.named h.0, is, found);
          },
          rest.collectable,
        );
      }

  -- What the report of a request says.
  pub record IsCovered (report : EvaluationReport) : Type 0 where
    pub listed :
        map (λ r. r.scenario_id) report.results
        ≡ map (λ s. s.scenario_id) (sorted_by (λ s. s.scenario_id) request.suite.scenarios)
    pub missing_rules :
        (id : String)
        → elem report.coverage.missing_rule_ids id
          ≡ (not (any (has_fired id) report.results) && elem (rule_ids request.policy.rules) id)

  cleared : (b : Bool) → not b ≡ true → b ≡ false
  cleared true h = cc
  cleared false h = refl

  unique_rule_ids :
      validate_rule_set request.policy ≡ ok tt
      → has_duplicates (rule_ids request.policy.rules) ≡ false
  unique_rule_ids h =
      let (model, _) = (validate_rule_set-exact request.policy).0 h in model.consistent.unique

  unique_invariant_ids :
      validate_contract request.contract ≡ ok tt
      → has_duplicates (invariant_ids request.contract.invariants) ≡ false
  unfolding validate_contract unique_invariants
  unique_invariant_ids h =
      let is = request.contract.invariants in
      let (_, _, e) = >>=-eq-ok (each_ok validate_invariant is) _ h in
      let (_, e1) = require->> (not (is_empty request.contract.required_dimensions)) _ _ e in
      let (_, e2) = require->> (leb 3 (length is) && leb (length is) 5) _ _ e1 in
      let (unique, _) = require->> (not (has_duplicates (invariant_ids is))) _ _ e2 in
      cleared (has_duplicates (invariant_ids is)) unique

  unique_scenario_ids :
      unique_scenarios request.suite ≡ ok tt
      → has_duplicates (scenario_ids request.suite.scenarios) ≡ false
  unfolding unique_scenarios
  unique_scenario_ids h =
      let ss = request.suite.scenarios in
      let (_, e) = require->> (not (is_empty ss)) _ _ h in
      let (_, e1) = require->> (leb (length ss) 15) _ _ e in
      cleared (has_duplicates (scenario_ids ss))
        (passed (not (has_duplicates (scenario_ids ss))) e1)
    where
      passed : (b : Bool) → require b "scenario IDs must be unique" ≡ ok tt → b ≡ true
      passed true h = refl
      passed false h = cc

  -- For each request whose policy, contract, suite and anchors pass their validators, `evaluate`
  -- returns a report: no validator of the coverage models rejects the snapshot that it builds. The
  -- report has one result for each scenario of the suite, sorted, and a rule is listed as missing
  -- exactly when it is a rule of the policy and fired in no result.
  pub evaluate-IsCovered :
      validate_rule_set request.policy ≡ ok tt
      → validate_contract request.contract ≡ ok tt
      → validate_evaluation_anchors digests request ≡ ok tt
      → unique_scenarios request.suite ≡ ok tt
      → (report : EvaluationReport) × (evaluate digests request ≡ ok report) × IsCovered report
  unfolding evaluate unique_results snapshot
  evaluate-IsCovered rules_ok contract_ok anchors_ok suite_ok =
      let rules = request.policy.rules in
      let invariants = request.contract.invariants in
      let ss = sorted_by (λ s. s.scenario_id) request.suite.scenarios in
      let unique = unique_scenario_ids suite_ok in
      let ev = evaluate_each ss (
        All-sorted_by (λ s. find_scenario s.scenario_id request.suite.scenarios ≡ ok s)
          (λ s. s.scenario_id) request.suite.scenarios
          (each_found request.suite.scenarios unique)) in
      let c =
        collect-Collected digests request ev.results [] ev.collectable
          (record { unique = refl; known = refl }) in
      let coordinates = coordinates-evidence_item (sorted_items c.evidence) in
      let bounded =
        bounded_counts-snapshot rules invariants c.evidence (unique_rule_ids rules_ok)
          (unique_invariant_ids contract_ok) c.kept.unique c.kept.known in
      let distinct_ids : has_duplicates (result_ids ev.results) ≡ false =
        ap has_duplicates ev.listed
        ∙ has_duplicates-sorted_by (λ s. s.scenario_id) (λ s. s.scenario_id) request.suite.scenarios
        ∙ unique in
      (
        report_of digests request ev.results (snapshot rules invariants c.evidence),
        rw (rules_ok, contract_ok, anchors_ok, evaluate)
            (rw ev.returned (rw c.returned (rw coordinates (rw bounded (rw distinct_ids refl))))),
        record {
          listed = ev.listed;
          missing_rules =
              λ id. elem-missing rules invariants c.evidence id ∙ ground (arith, c.rules id);
        },
      )
