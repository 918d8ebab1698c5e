-- ===== src/Evaluation/Engine/Total.antt =====
-- The parts of `evaluate_scenario` up to the dimensions raise only what its handler catches.
use policyfuzz.Prelude.{
  refl, List, [], ◌∷◌, ◌++◌, Bool-cases, Option-cases, inl, inr, is_empty, ok, ◌>>◌, require,
  each_ok, Option, none, some, elem, string_eq, all, ◌==◌,
}
use policyfuzz.Domain.Vocabulary.{EffectDimension, dimension_eq, EffectStatus, effect_status_eq}
use policyfuzz.Domain.Rule.{EffectValue, validate_effect_value, UnsupportedClause}
use policyfuzz.Domain.Facts.{ScenarioFacts, validate_facts}
use policyfuzz.Domain.Policy.{PolicyIr}
use policyfuzz.Domain.Intent.{
  Assertion, Invariant, PolicyContract, assertion_beq, typed_assertion, independent_assertion,
  is_some,
}
use policyfuzz.Domain.Scenario.{
  Scenario, independent_assertions, origin_mapping, scenario_origin_eq,
}
use policyfuzz.Evaluation.Predicates.{RuleTrace, evaluate_conditions}
use policyfuzz.Evaluation.Resolution.{
  DimensionResult, iff, typed_resolution, check_value, check_conflict, open_clauses, clause_applies,
  resolve_dimension,
}
use policyfuzz.Evaluation.Engine.Scenarios.{
  matched_invariants, find_assertion, merge_assertions, scenario_assertions, validate_scenario,
}
use policyfuzz.Evaluation.Engine.Caught.{
  Caught, Caught->>=, Caught-require, Caught-each_ok, Caught-evaluate_conditions,
  Caught-validate_effect_value, Caught-typed_assertion, Caught-independent_assertion,
}

pub Caught-matched_invariants :
    (is : List Invariant) (facts : ScenarioFacts) → Caught (matched_invariants is facts)
unfolding matched_invariants
Caught-matched_invariants [] facts = tt
Caught-matched_invariants (i ∷ is) facts =
    Caught->>= (evaluate_conditions i.when facts) _ (Caught-evaluate_conditions i.when facts)
      (λ _ _.
        Caught->>= (matched_invariants is facts) _ (Caught-matched_invariants is facts) (λ _ _. tt))

Caught-merge_assertions :
    (known : List Assertion) (is : List Invariant) → Caught (merge_assertions known is)
unfolding merge_assertions
Caught-merge_assertions known [] = tt
Caught-merge_assertions known (i ∷ is) =
    elim (Option-cases (find_assertion i.assertion.assertion_id known)) [
      | inl absent ↦ rw (absent, Caught) (Caught-merge_assertions (known ++ i.assertion ∷ []) is)
      | inr (a, found) ↦ elim (Bool-cases (assertion_beq a i.assertion)) [
        | inl same ↦ rw (found, same, Caught) (Caught-merge_assertions known is)
        | inr other ↦ rw (found, other, Caught) refl
      ]
    ]

pub Caught-scenario_assertions :
    (contract : PolicyContract) (scenario : Scenario)
    → Caught (scenario_assertions contract scenario)
unfolding scenario_assertions
Caught-scenario_assertions contract scenario =
    Caught->>= (matched_invariants contract.invariants scenario.facts) _
      (Caught-matched_invariants contract.invariants scenario.facts)
      (λ is _.
        Caught->>= (merge_assertions scenario.assertions is) _
          (Caught-merge_assertions scenario.assertions is) (λ _ _. tt))

pub Caught-validate_scenario : (scenario : Scenario) → Caught (validate_scenario scenario)
unfolding validate_facts independent_assertions
Caught-validate_scenario scenario =
    Caught->>= (validate_facts scenario.facts) _ (Caught-require _ _) (λ _ _.
      Caught->>= (each_ok (λ a. typed_assertion a >> independent_assertion a) scenario.assertions) _
        (Caught-each_ok _ scenario.assertions (λ a.
          Caught->>= (typed_assertion a) _ (Caught-typed_assertion a)
            (λ _ _. Caught-independent_assertion a)))
        (λ _ _.
          Caught->>=
            (require
              (all (λ a. elem scenario.origins (origin_mapping a.origin)) scenario.assertions)
              "scored assertions require independently sourced scenario origins")
            _ (Caught-require _ _) (λ _ _. Caught-require _ _)))

Caught-check_conflict : (s : EffectStatus) (vs : List EffectValue) → Caught (check_conflict s vs)
Caught-check_conflict EffectStatus.conflict vs = Caught-require _ _
Caught-check_conflict _ vs = Caught-require _ _

Caught-check_value : (d : EffectDimension) (v : Option EffectValue) → Caught (check_value d v)
Caught-check_value d none = tt
Caught-check_value d (some v) = Caught-validate_effect_value d v

Caught-typed_resolution : (r : DimensionResult) → Caught (typed_resolution r)
unfolding typed_resolution
Caught-typed_resolution r =
    Caught->>=
      (require (iff (r.status == EffectStatus.value) (is_some r.value))
        "only VALUE results carry a resolved value")
      _ (Caught-require _ _)
      (λ _ _.
        Caught->>= (check_value r.dimension r.value) _ (Caught-check_value r.dimension r.value)
          (λ _ _.
            Caught->>= (each_ok (validate_effect_value r.dimension) r.conflicting_values) _
              (Caught-each_ok _ r.conflicting_values (Caught-validate_effect_value r.dimension))
              (λ _ _. Caught-check_conflict r.status r.conflicting_values)))

Caught-built : (r : DimensionResult) → Caught (typed_resolution r >> ok r)
Caught-built r = Caught->>= (typed_resolution r) _ (Caught-typed_resolution r) (λ _ _. tt)

Caught-clause_applies :
    (d : EffectDimension) (required : List EffectDimension) (facts : ScenarioFacts)
    (c : UnsupportedClause)
    → Caught (clause_applies d required facts c)
Caught-clause_applies d required facts c = elim (Bool-cases (elem c.affected_dimensions d)) [
  | inr outside ↦ rw (outside, Caught) tt
  | inl affected ↦ elim (Option-cases c.when_hint) [
    | inl absent ↦ rw (affected, absent, Caught) tt
    | inr (hint, found) ↦
        rw (affected, found, Caught)
          (Caught->>= (evaluate_conditions hint facts) _ (Caught-evaluate_conditions hint facts)
            (λ _ _. tt))
  ]
]

Caught-open_clauses :
    (d : EffectDimension) (required : List EffectDimension) (facts : ScenarioFacts)
    (cs : List UnsupportedClause)
    → Caught (open_clauses d required facts cs)
unfolding open_clauses
Caught-open_clauses d required facts [] = tt
Caught-open_clauses d required facts (c ∷ cs) =
    Caught->>= (clause_applies d required facts c) _ (Caught-clause_applies d required facts c)
      (λ _ _.
        Caught->>= (open_clauses d required facts cs) _ (Caught-open_clauses d required facts cs)
          (λ _ _. tt))

pub Caught-resolve_dimension :
    (d : EffectDimension) (policy : PolicyIr) (facts : ScenarioFacts)
    (required : List EffectDimension) (traces : List RuleTrace)
    → Caught (resolve_dimension d policy facts required traces)
unfolding resolve_dimension
Caught-resolve_dimension d policy facts required traces =
    Caught->>= (open_clauses d required facts policy.unsupported_clauses) _
      (Caught-open_clauses d required facts policy.unsupported_clauses)
      (λ unsupported _. elim (Bool-cases (is_empty unsupported)) [
        | inl supported ↦ rw (supported, Caught) (Caught-built _)
        | inr unresolved ↦ rw (unresolved, Caught) (Caught-built _)
      ])
