-- ===== src/Evaluation/Findings/Kept.antt =====
-- The loops of the analysis keep the groups sound.
use policyfuzz.Prelude.{
  String, ◌≡◌, refl, subst, Bool, true, false, not, ◌&&◌, List, [], elem, sorted_by, ◌==◌,
  string_eq, Bool-cases, inl, inr, if◌then◌else◌, decide, Option, none, some, ok, >>=-eq-ok,
  ok-injective, fold_ok, fold_ok-keeps,
}
use policyfuzz.Domain.Vocabulary.{EffectDimension, EffectStatus, effect_status_eq, dimension_eq}
use policyfuzz.Domain.Rule.{UnsupportedClause}
use policyfuzz.Domain.Policy.{PolicyIr}
use policyfuzz.Domain.Intent.{Assertion, PolicyContract}
use policyfuzz.Domain.Scenario.{Scenario}
use policyfuzz.Domain.Finding.{FindingType, FindingType-discrete}
use policyfuzz.Evaluation.Resolution.{DimensionResult}
use policyfuzz.Evaluation.Assertions.{AssertionResult}
use policyfuzz.Evaluation.Engine.{ScenarioEvaluation, scenario_assertions, find_assertion}
use policyfuzz.Evaluation.Suites.{is_error}
use policyfuzz.Evaluation.Findings.Groups.{Group, FindingDigests, Cause}
use policyfuzz.Evaluation.Findings.Analysis.{
  Progress, added, breach, breaches, of_rule_ids, open_clause, note_breach, known_assertion,
  effect_of, check_outcome, structural, add_clause, clause_at, check_effect, check_result,
  scenario_at, analyze_result, collect_groups, suppliers, survivors, start,
}
use policyfuzz.Evaluation.Findings.Sound.{IsGrouped, IsCause, add-IsGrouped}

breach-IsCause :
    (policy : PolicyIr) (d : EffectDimension) (id : String) → IsCause (breach policy d id)
unfolding FindingType-discrete decide
breach-IsCause policy d id = record { loophole = refl; regression = refl; breach = refl }

gap-IsCause :
    (d : EffectDimension) (ids : List String)
    → IsCause (of_rule_ids FindingType.structural_gap d ids)
unfolding FindingType-discrete decide
gap-IsCause d ids = record { loophole = refl; regression = refl; breach = refl }

conflict-IsCause :
    (d : EffectDimension) (ids : List String) → IsCause (of_rule_ids FindingType.conflict d ids)
unfolding FindingType-discrete decide
conflict-IsCause d ids = record { loophole = refl; regression = refl; breach = refl }

clause-IsCause : (d : EffectDimension) (c : UnsupportedClause) → IsCause (open_clause d c)
unfolding FindingType-discrete decide
clause-IsCause d c = record { loophole = refl; regression = refl; breach = refl }

module _ (digests : FindingDigests) (policy : PolicyIr) (contract : PolicyContract) where
  abbrev Kept : Progress → Type 0
  Kept p = IsGrouped p.groups

  added-IsGrouped :
      (r : ScenarioEvaluation) (c : Cause) (m m' : List (String × Group))
      → IsCause c
      → added digests policy contract r c m ≡ ok m'
      → IsGrouped m
      → IsGrouped m'
  added-IsGrouped r c m m' i e h =
      add-IsGrouped digests policy.rules contract.invariants r c m m' i h e

  note_breach-Kept :
      (r : ScenarioEvaluation) (outcome : AssertionResult) (a : Assertion)
      (effect : DimensionResult) (id : Option String) (p q : Progress)
      → note_breach digests policy contract r outcome a effect id p ≡ ok q
      → Kept p
      → Kept q
  note_breach-Kept r outcome a effect none p q e h = subst Kept (ok-injective p q e) h
  note_breach-Kept r outcome a effect (some id) p q e h =
      elim (Bool-cases (breaches policy outcome effect)) [
        | inl bad ↦
            let (m, put, done) =
              >>=-eq-ok (added digests policy contract r (breach policy a.dimension id) p.groups) _
                (rw bad at e) in
            subst Kept (ok-injective _ q done) (
              added-IsGrouped r (breach policy a.dimension id) p.groups m
                (breach-IsCause policy a.dimension id) put h)
        | inr fine ↦ subst Kept (ok-injective p q (rw fine at e)) h
      ]

  check_outcome-Kept :
      (r : ScenarioEvaluation) (known : List Assertion) (p q : Progress) (outcome : AssertionResult)
      → check_outcome digests policy contract r known p outcome ≡ ok q
      → Kept p
      → Kept q
  unfolding check_outcome
  check_outcome-Kept r known p q outcome e h =
      let (a, _, e1) =
        >>=-eq-ok
          (known_assertion digests policy contract (find_assertion outcome.assertion_id known)) _
          e in
      let (effect, _, e2) = >>=-eq-ok (effect_of a.dimension r.trace.resolved_effects) _ e1 in
      note_breach-Kept r outcome a effect a.source_invariant_id p q e2 h

  add_clause-IsGrouped :
      (r : ScenarioEvaluation) (d : EffectDimension) (m m' : List (String × Group)) (id : String)
      → add_clause digests policy contract r d m id ≡ ok m'
      → IsGrouped m
      → IsGrouped m'
  add_clause-IsGrouped r d m m' id e h =
      let (c, _, put) = >>=-eq-ok (clause_at id policy.unsupported_clauses) _ e in
      added-IsGrouped r (open_clause d c) m m' (clause-IsCause d c) put h

  structural-IsGrouped :
      (r : ScenarioEvaluation) (effect : DimensionResult) (p : Progress) (m : List (String × Group))
      → structural digests policy contract r effect p ≡ ok m
      → Kept p
      → IsGrouped m
  structural-IsGrouped r effect p m e h =
      by_tests (effect.status == EffectStatus.gap && not (elem p.gap_dimensions effect.dimension))
        (effect.status == EffectStatus.conflict) e
    where
      gap : Cause
      gap =
          of_rule_ids FindingType.structural_gap effect.dimension
            (suppliers policy effect.dimension)

      clash : Cause
      clash =
          of_rule_ids FindingType.conflict effect.dimension
            (survivors digests policy contract effect)

      by_tests :
          (b c : Bool)
          → (if b
              then added digests policy contract r
                  (of_rule_ids FindingType.structural_gap effect.dimension
                    (suppliers policy effect.dimension))
                  p.groups
              else if c
              then added digests policy contract r
                  (of_rule_ids FindingType.conflict effect.dimension
                    (survivors digests policy contract effect))
                  p.groups
              else ok p.groups)
            ≡ ok m
          → IsGrouped m
      by_tests true c e =
          added-IsGrouped r _ p.groups m
            (gap-IsCause effect.dimension (suppliers policy effect.dimension)) e h
      by_tests false true e =
          added-IsGrouped r _ p.groups m
            (conflict-IsCause effect.dimension (survivors digests policy contract effect)) e h
      by_tests false false e = subst IsGrouped (ok-injective p.groups m e) h

  check_effect-Kept :
      (r : ScenarioEvaluation) (p q : Progress) (effect : DimensionResult)
      → check_effect digests policy contract r p effect ≡ ok q
      → Kept p
      → Kept q
  unfolding check_effect
  check_effect-Kept r p q effect e h =
      let (m, first, e1) = >>=-eq-ok (structural digests policy contract r effect p) _ e in
      let (m', loop, e2) =
        >>=-eq-ok
          (fold_ok (add_clause digests policy contract r effect.dimension)
            effect.unsupported_clause_ids m)
          _ e1 in
      subst Kept (ok-injective (record p { groups = m' }) q e2) (
        fold_ok-keeps IsGrouped (add_clause digests policy contract r effect.dimension)
          (λ s t id step k. add_clause-IsGrouped r effect.dimension s t id step k)
          effect.unsupported_clause_ids m m' loop (structural-IsGrouped r effect p m first h))

  check_result-IsGrouped :
      (scenario : Scenario) (r : ScenarioEvaluation) (m m' : List (String × Group))
      → check_result digests policy contract scenario r m ≡ ok m'
      → IsGrouped m
      → IsGrouped m'
  unfolding check_result
  check_result-IsGrouped scenario r m m' e h =
      let (known, _, e1) = >>=-eq-ok (scenario_assertions contract scenario) _ e in
      let (p, outcomes, e2) =
        >>=-eq-ok
          (fold_ok (check_outcome digests policy contract r known) r.assertion_results
            (start digests policy contract m))
          _ e1 in
      let (q, effects, e3) =
        >>=-eq-ok (fold_ok (check_effect digests policy contract r) r.trace.resolved_effects p) _
          e2 in
      let first =
        fold_ok-keeps Kept (check_outcome digests policy contract r known)
          (λ s t o step k. check_outcome-Kept r known s t o step k) r.assertion_results
          (start digests policy contract m) p outcomes h in
      subst IsGrouped (ok-injective q.groups m' e3) (
        fold_ok-keeps Kept (check_effect digests policy contract r)
          (λ s t d step k. check_effect-Kept r s t d step k) r.trace.resolved_effects p q effects
          first)

  analyze_result-IsGrouped :
      (ss : List Scenario) (m m' : List (String × Group)) (r : ScenarioEvaluation)
      → analyze_result digests policy contract ss m r ≡ ok m'
      → IsGrouped m
      → IsGrouped m'
  unfolding analyze_result
  analyze_result-IsGrouped ss m m' r e h =
      let (s, _, e1) = >>=-eq-ok (scenario_at r.scenario_id ss) _ e in
      elim (Bool-cases (is_error r.verdict)) [
        | inl error ↦ subst IsGrouped (ok-injective m m' (rw error at e1)) h
        | inr fine ↦ check_result-IsGrouped s r m m' (rw fine at e1) h
      ]

  pub collect_groups-IsGrouped :
      (ss : List Scenario) (rs : List ScenarioEvaluation) (m : List (String × Group))
      → collect_groups digests policy contract ss rs ≡ ok m
      → IsGrouped m
  unfolding collect_groups
  collect_groups-IsGrouped ss rs m e =
      fold_ok-keeps IsGrouped (analyze_result digests policy contract ss)
        (λ s t r step k. analyze_result-IsGrouped ss s t r step k)
        (sorted_by (λ r. r.scenario_id) rs) [] m e (refl, tt)
