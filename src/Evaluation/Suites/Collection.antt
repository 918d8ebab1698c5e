-- ===== src/Evaluation/Suites/Collection.antt =====
-- The loop over the results: it never raises, and the rules that it covers are those that fired.
use policyfuzz.Prelude.{
  String, ◌≡◌, refl, ◌∙◌, ap, Bool, true, false, ◌||◌, List, [], ◌∷◌, map, all, any, elem,
  string_eq, Bool-cases, inl, inr, if◌then◌else◌, arith, All, Outcome, ok, ◌>>=◌, all-of_elem,
}
use policyfuzz.Domain.Rule.{Rule}
use policyfuzz.Domain.Policy.{rule_ids}
use policyfuzz.Domain.Intent.{Invariant}
use policyfuzz.Domain.Scenario.{Scenario}
use policyfuzz.Evaluation.Engine.{ScenarioEvaluation, PredicateResult, matched_invariants}
use policyfuzz.Evaluation.Suites.Evidence.{
  CoverageKey, rule_key, invariant_key, key_eq, Evidence, keys, note_all, branch_of, invariant_ids,
}
use policyfuzz.Evaluation.Suites.Bounds.{is_known, branches}
use policyfuzz.Evaluation.Suites.Traces.{IsTraced}
use policyfuzz.Evaluation.Suites.Notes.{
  IsEvidence, IsEvidence-note_all, elem-note_all, all-matched_invariants,
}
use policyfuzz.Evaluation.Suites.Defs.{
  EvaluatePolicyRequest, Digests, find_scenario, invariant_evidence, trace_evidence, collect,
  is_error,
}

-- Whether the result says that the rule fired
abbrev pub has_fired : String → ScenarioEvaluation → Bool
has_fired id r = elem r.trace.fired_rule_ids id

-- What the loop needs of a result
pub record IsCollectable (request : EvaluatePolicyRequest) (r : ScenarioEvaluation) : Type 0 where
  pub traced : IsTraced request.policy.rules r.trace
  pub matched :
      is_error r.verdict ≡ false
      → (s : Scenario) × (find_scenario r.scenario_id request.suite.scenarios ≡ ok s)
        × (is : List Invariant) × (matched_invariants request.contract.invariants s.facts ≡ ok is)

all-map_key :
    (p : CoverageKey → Bool) (q : String → Bool) (k : String → CoverageKey)
    → ((id : String) → p (k id) ≡ q id)
    → (ids : List String) → all p (map k ids) ≡ all q ids
all-map_key p q k h [] = refl
all-map_key p q k h (id ∷ ids) = ground (arith, h id, all-map_key p q k h ids)

all-branch_of :
    (rules : List Rule) (invariants : List Invariant) (ps : List PredicateResult)
    → all (elem (branches rules)) (map branch_of ps) ≡ true
    → all (is_known rules invariants) (map branch_of ps) ≡ true
all-branch_of rules invariants [] h = refl
all-branch_of rules invariants (p ∷ ps) h = ground (arith, all-branch_of rules invariants ps)

all-invariant_key :
    (rules : List Rule) (invariants is : List Invariant)
    → all (elem (invariant_ids invariants)) (invariant_ids is) ≡ true
    → all (is_known rules invariants) (map (λ i. invariant_key i.invariant_id) is) ≡ true
all-invariant_key rules invariants [] h = refl
all-invariant_key rules invariants (i ∷ is) h =
    ground (arith, all-invariant_key rules invariants is)

elem-rule_key :
    (ids : List String) (id : String) → elem (map rule_key ids) (rule_key id) ≡ elem ids id
elem-rule_key [] id = refl
elem-rule_key (x ∷ ids) id = ground (arith, elem-rule_key ids id)

elem-branch_of :
    (ps : List PredicateResult) (id : String) → elem (map branch_of ps) (rule_key id) ≡ false
elem-branch_of [] id = refl
elem-branch_of (p ∷ ps) id = ground (arith, elem-branch_of ps id)

elem-invariant_key :
    (is : List Invariant) (id : String)
    → elem (map (λ i. invariant_key i.invariant_id) is) (rule_key id) ≡ false
elem-invariant_key [] id = refl
elem-invariant_key (i ∷ is) id = ground (arith, elem-invariant_key is id)

module _ (digests : Digests) (request : EvaluatePolicyRequest) where
  abbrev IsOk : Evidence → Type 0
  IsOk e = IsEvidence request.policy.rules request.contract.invariants e

  trace_evidence-IsOk :
      (r : ScenarioEvaluation) (e : Evidence)
      → IsTraced request.policy.rules r.trace
      → IsOk e
      → IsOk (trace_evidence digests r e)
  trace_evidence-IsOk r e t i =
      let rules = request.policy.rules in
      let invariants = request.contract.invariants in
      IsEvidence-note_all rules invariants r.scenario_id (map branch_of r.trace.predicate_results)
        (note_all r.scenario_id (map rule_key r.trace.fired_rule_ids) e)
        (all-branch_of rules invariants r.trace.predicate_results t.branched)
        (IsEvidence-note_all rules invariants r.scenario_id (map rule_key r.trace.fired_rule_ids) e
          (all-map_key (is_known rules invariants) (elem (rule_ids rules)) rule_key (λ id. refl)
              r.trace.fired_rule_ids
            ∙ t.fired)
          i)

  trace_evidence-rule :
      (r : ScenarioEvaluation) (e : Evidence) (id : String)
      → elem (keys (trace_evidence digests r e)) (rule_key id)
        ≡ (has_fired id r || elem (keys e) (rule_key id))
  trace_evidence-rule r e id =
      let fired = note_all r.scenario_id (map rule_key r.trace.fired_rule_ids) e in
      elem-note_all r.scenario_id (map branch_of r.trace.predicate_results) (rule_key id) fired
      ∙ ap (λ b. b || elem (keys fired) (rule_key id)) (elem-branch_of r.trace.predicate_results id)
      ∙ elem-note_all r.scenario_id (map rule_key r.trace.fired_rule_ids) (rule_key id) e
      ∙ ap (λ b. b || elem (keys e) (rule_key id)) (elem-rule_key r.trace.fired_rule_ids id)

  -- What a step of the loop, or the whole of it, makes of the evidence
  pub record Collected (rs : List ScenarioEvaluation) (e : Evidence) (m : Outcome Evidence)
      : Type 0 where
    pub evidence : Evidence
    pub returned : m ≡ ok evidence
    pub kept : IsOk evidence
    pub rules :
        (id : String)
        → elem (keys evidence) (rule_key id)
          ≡ (any (has_fired id) rs || elem (keys e) (rule_key id))

  abbrev noted : ScenarioEvaluation → Evidence → Outcome Evidence
  noted r e =
      if is_error r.verdict
      then ok (trace_evidence digests r e)
      else invariant_evidence digests request r (trace_evidence digests r e)

  noted-Collected :
      (r : ScenarioEvaluation) (e : Evidence)
      → IsCollectable request r
      → IsOk e
      → Collected (r ∷ []) e (noted r e)
  unfolding invariant_evidence
  noted-Collected r e c i = elim (Bool-cases (is_error r.verdict)) [
    | inl error ↦ record {
      evidence = trace_evidence digests r e;
      returned = rw error refl;
      kept = trace_evidence-IsOk r e c.traced i;
      rules = λ id. ground (arith, trace_evidence-rule r e id);
    }
    | inr fine ↦
        let (s, found, is, matched) = c.matched fine in
        let invariants = request.contract.invariants in
        let ks = map (λ i. invariant_key i.invariant_id) is in
        let t = trace_evidence digests r e in
        record {
          evidence = note_all r.scenario_id ks t;
          returned = rw (fine, invariant_evidence) (rw found (rw matched refl));
          kept =
              IsEvidence-note_all request.policy.rules invariants r.scenario_id ks t
                (all-invariant_key request.policy.rules invariants is (
                  all-matched_invariants (elem (invariant_ids invariants)) invariants s.facts is
                    matched
                    (all-of_elem (elem (invariant_ids invariants)) (invariant_ids invariants)
                      (λ a m. m))))
                (trace_evidence-IsOk r e c.traced i);
          rules = λ id. ground (
            arith,
            elem-note_all r.scenario_id ks (rule_key id) t,
            elem-invariant_key is id,
            trace_evidence-rule r e id,
          );
        }
  ]

  pub collect-Collected :
      (rs : List ScenarioEvaluation) (e : Evidence)
      → All (IsCollectable request) rs
      → IsOk e
      → Collected rs e (collect digests request rs e)
  unfolding collect
  collect-Collected [] e c i = record {
    evidence = e;
    returned = refl;
    kept = i;
    rules = λ id. refl;
  }
  collect-Collected (r ∷ rs) e c i =
      let first = noted-Collected r e c.0 i in
      let rest = collect-Collected rs first.evidence c.1 first.kept in
      record {
        evidence = rest.evidence;
        returned = ap (λ m. m >>= λ x. collect digests request rs x) first.returned ∙ rest.returned;
        kept = rest.kept;
        rules = λ id. ground (arith, rest.rules id, first.rules id);
      }
