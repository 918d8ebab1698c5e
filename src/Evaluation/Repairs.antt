-- ===== src/Evaluation/Repairs.antt =====
-- backend/app/features/evaluation/regression.py: `target_witnesses_fixed`, the test that a revision
-- repairs the witnesses of a finding.
use policyfuzz.Prelude.{
  String, ◌≡◌, Bool, true, false, not, ◌&&◌, ◌||◌, List, [], ◌∷◌, keep, all, is_empty, ◌==◌,
  string_eq, Option, none, some, Outcome, ok, raised, key_error, ◌>>=◌, >>=-eq-ok, ok-injective,
  all_ok, All, All-of_keep, all→All, and_left, Bool-cases, inl, inr, if◌then◌else◌,
}
use policyfuzz.Domain.Vocabulary.{
  dimension_eq, EffectStatus, effect_status_eq, AssertionStatus, assertion_status_eq,
}
use policyfuzz.Domain.Intent.{Assertion, PolicyContract}
use policyfuzz.Domain.Scenario.{Scenario}
use policyfuzz.Domain.Finding.{Finding, is_candidate}
use policyfuzz.Evaluation.Resolution.{DimensionResult}
use policyfuzz.Evaluation.Assertions.{AssertionResult}
use policyfuzz.Evaluation.Engine.{ScenarioEvaluation, scenario_assertions}
use policyfuzz.Evaluation.Findings.{effect_of, value_at}

-- `entries[key]`
abbrev pub present : {A : Type 0} → Option A → Outcome A
present none = raised key_error
present (some a) = ok a

-- `{a.assertion_id: a.status for a in results}.get(assertion_id)`
unfoldable pub status_of : String → List AssertionResult → Option AssertionStatus
status_of id [] = none
status_of id (r ∷ rs) = elim (status_of id rs) [
  | some later ↦ some later
  | none ↦ if r.assertion_id == id then some r.status else none
]

abbrev is_pass : Option AssertionStatus → Bool
is_pass none = false
is_pass (some s) = s == AssertionStatus.pass

abbrev pub passed_in : List AssertionResult → String → Bool
passed_in rs id = is_pass (status_of id rs)

abbrev names : String → Option String → Bool
names id none = false
names id (some s) = s == id

-- The part that the reference of the finding decides
abbrev pub root_repaired :
    Option String
    → Option String
    → List AssertionResult
    → List AssertionResult
    → DimensionResult
    → List Assertion
    → Bool
root_repaired (some invariant_id) assertion old new effect assertions =
    let relevant = keep (λ a. names invariant_id a.source_invariant_id) assertions in
    not (is_empty relevant) && all (λ a. not (passed_in old a.assertion_id)) relevant
root_repaired none (some assertion_id) old new effect assertions =
    not (passed_in old assertion_id) && passed_in new assertion_id
root_repaired none none old new effect assertions =
    effect.status == EffectStatus.gap || effect.status == EffectStatus.conflict

module _ (finding : Finding) (before after : List (String × ScenarioEvaluation))
    (scenarios : List (String × Scenario)) (contract : PolicyContract) where
  abbrev pub in_dimension : List Assertion → List Assertion
  in_dimension known = keep (λ a. a.dimension == finding.dimension) known

  abbrev pub repaired :
      ScenarioEvaluation → ScenarioEvaluation → DimensionResult → List Assertion → Bool
  repaired old new effect known =
      all (λ a. passed_in new.assertion_results a.assertion_id) (in_dimension known)
      && root_repaired finding.invariant_id finding.assertion_id old.assertion_results
          new.assertion_results effect (in_dimension known)

  abbrev pub check_assertions :
      String → ScenarioEvaluation → ScenarioEvaluation → DimensionResult → Outcome Bool
  check_assertions scenario_id old new effect = do
    scenario ← present (value_at scenario_id scenarios)
    known ← scenario_assertions contract scenario
    ok (repaired old new effect known)

  -- The body of the loop over the witnesses; it returns whether to go on.
  unfoldable pub witness_fixed : String → Outcome Bool
  unfolding value_at effect_of status_of
  witness_fixed scenario_id = do
    old ← present (value_at scenario_id before)
    new ← present (value_at scenario_id after)
    old_effect ← effect_of finding.dimension old.trace.resolved_effects
    new_effect ← effect_of finding.dimension new.trace.resolved_effects
    (if new_effect.status == EffectStatus.value
        then check_assertions scenario_id old new old_effect
        else ok false)

  unfoldable pub target_witnesses_fixed : Outcome Bool
  unfolding witness_fixed
  target_witnesses_fixed =
      if is_candidate finding.evidence_level
      then ok false
      else all_ok witness_fixed finding.scenario_ids

  -- A witness that the revision repairs
  pub record IsRepaired (scenario_id : String) : Type 0 where
    pub new : ScenarioEvaluation
    pub scenario : Scenario
    pub known : List Assertion
    pub effect : DimensionResult
    pub evaluated : present (value_at scenario_id after) ≡ ok new
    pub listed : present (value_at scenario_id scenarios) ≡ ok scenario
    pub asserted : scenario_assertions contract scenario ≡ ok known
    pub resolved : effect_of finding.dimension new.trace.resolved_effects ≡ ok effect
    pub decided : (effect.status == EffectStatus.value) ≡ true
    pub passes :
        All
          (λ a.
            (a.dimension == finding.dimension) ≡ true
            → passed_in new.assertion_results a.assertion_id ≡ true)
          known

  witness_fixed-IsRepaired : (id : String) → witness_fixed id ≡ ok true → IsRepaired id
  unfolding witness_fixed
  witness_fixed-IsRepaired id h =
      let (old, _, h1) = >>=-eq-ok (present (value_at id before)) _ h in
      let (new, evaluated, h2) = >>=-eq-ok (present (value_at id after)) _ h1 in
      let (old_effect, _, h3) =
        >>=-eq-ok (effect_of finding.dimension old.trace.resolved_effects) _ h2 in
      let (effect, resolved, h4) =
        >>=-eq-ok (effect_of finding.dimension new.trace.resolved_effects) _ h3 in
      elim (Bool-cases (effect.status == EffectStatus.value)) [
        | inr other ↦ cc (rw other at h4)
        | inl decided ↦
            let checked : check_assertions id old new old_effect ≡ ok true = rw decided at h4 in
            let (scenario, listed, h5) = >>=-eq-ok (present (value_at id scenarios)) _ checked in
            let (known, asserted, h6) = >>=-eq-ok (scenario_assertions contract scenario) _ h5 in
            let both = ok-injective (repaired old new old_effect known) true h6 in
            let passing =
              all→All (λ a. passed_in new.assertion_results a.assertion_id) (in_dimension known)
                (and_left _ _ both) in
            record {
              new = new;
              scenario = scenario;
              known = known;
              effect = effect;
              evaluated = evaluated;
              listed = listed;
              asserted = asserted;
              resolved = resolved;
              decided = decided;
              passes =
                  All-of_keep (λ a. passed_in new.assertion_results a.assertion_id ≡ true)
                    (λ a. a.dimension == finding.dimension) known passing;
            }
      ]

  each_fixed : (ids : List String) → all_ok witness_fixed ids ≡ ok true → All IsRepaired ids
  each_fixed [] h = tt
  each_fixed (id ∷ ids) h =
      let (b, first, rest) = >>=-eq-ok (witness_fixed id) _ h in
      elim (Bool-cases b) [
        | inl yes_ ↦
            (witness_fixed-IsRepaired id (rw yes_ at first), each_fixed ids (rw yes_ at rest))
        | inr no_ ↦ cc (rw no_ at rest)
      ]

  -- A finding that counts as fixed is no candidate, and the revision repairs each of its witnesses:
  -- the dimension of the finding resolves to a value there, and every assertion of the scenario on
  -- that dimension passes.
  pub target_witnesses_fixed-IsRepaired :
      target_witnesses_fixed ≡ ok true
      → (is_candidate finding.evidence_level ≡ false) × All IsRepaired finding.scenario_ids
  unfolding target_witnesses_fixed
  target_witnesses_fixed-IsRepaired h = elim (Bool-cases (is_candidate finding.evidence_level)) [
    | inl weak ↦ cc (rw (weak, target_witnesses_fixed) at h)
    | inr strong ↦
        (strong, each_fixed finding.scenario_ids (rw (strong, target_witnesses_fixed) at h))
  ]
