-- ===== src/Evaluation/Resolution/Settled.antt =====
-- `resolve_dimension` as a whole: the unsupported clauses first, then the values that survive.
use policyfuzz.Prelude.{
  String, ◌≡◌, ◌≢◌, ◌⊎◌, ◌↔◌, inl, inr, refl, All-map, All-keep, true, List, [], ◌∷◌, All, elem,
  elem-here, elem-sorted, sorted, string_eq, none, ok,
}
use policyfuzz.Domain.Vocabulary.{EffectDimension, dimension_eq, EffectStatus}
use policyfuzz.Domain.Drafts.Parts.{IsRule, IsClause}
use policyfuzz.Domain.Facts.{ScenarioFacts, IsInDomain}
use policyfuzz.Domain.Rule.{Rule}
use policyfuzz.Domain.Policy.{PolicyIr}
use policyfuzz.Evaluation.Predicates.{RuleTrace}
use policyfuzz.Evaluation.Resolution.Defs.{
  DimensionResult, applicable, effective, resolve_rules, open_clauses, inconclusive,
  resolve_dimension,
}
use policyfuzz.Evaluation.Resolution.Unsupported.{IsOpened, open_clauses-IsOpened, open_clauses-ok}
use policyfuzz.Evaluation.Resolution.Survivors.{effective-nonempty}
use policyfuzz.Evaluation.Resolution.Outcomes.{IsSettled, resolve_rules-IsSettled}
use policyfuzz.Evaluation.Resolution.Typed.{resolve_rules-typed, inconclusive-typed}
use policyfuzz.Evaluation.RuleValidation.Exact.{IsModel}

module _ (dimension : EffectDimension) (required : List EffectDimension)
    (facts : ScenarioFacts) where
  -- What a result says: it is inconclusive and names the open clauses, or no clause is open and the
  -- values that survive decide.
  abbrev pub IsDecided : PolicyIr → List RuleTrace → DimensionResult → Type 0
  IsDecided policy traces r =
      (((id : String) × IsOpened dimension required facts policy.unsupported_clauses id)
        × (r.status ≡ EffectStatus.inconclusive)
        × (r.value ≡ none)
        × ((id : String)
            → (elem r.unsupported_clause_ids id ≡ true)
              ↔ IsOpened dimension required facts policy.unsupported_clauses id))
      ⊎ (((id : String) → ¬ IsOpened dimension required facts policy.unsupported_clauses id)
          × IsSettled dimension required
              (effective dimension (applicable dimension traces policy.rules)) r)

  applicable-IsRule :
      (traces : List RuleTrace) (rules : List Rule)
      → All IsRule rules
      → All IsRule (applicable dimension traces rules)
  applicable-IsRule traces rules h =
      All-map (λ r kept. kept.0) (applicable dimension traces rules) (All-keep IsRule _ rules h)

  -- Whatever the matching rules, open unsupported clauses come first.
  decided :
      (policy : PolicyIr) (traces : List RuleTrace) (ids : List String)
      → All IsRule policy.rules
      → open_clauses dimension required facts policy.unsupported_clauses ≡ ok ids
      → ((id : String)
          → (elem ids id ≡ true) ↔ IsOpened dimension required facts policy.unsupported_clauses id)
      → (r : DimensionResult) × (resolve_dimension dimension policy facts required traces ≡ ok r)
        × IsDecided policy traces r
  unfolding resolve_dimension
  decided policy traces [] rules e exact =
      let rs = applicable dimension traces policy.rules in
      (
        resolve_rules dimension required rs,
        rw
            (
              e,
              resolve_rules-typed dimension required rs
                  (applicable-IsRule traces policy.rules rules),
            )
            refl,
        inr (λ id o. cc ((exact id).1 o), resolve_rules-IsSettled dimension required rs),
      )
  decided policy traces (i ∷ is) rules e exact = (
    inconclusive dimension (sorted (i ∷ is)),
    rw (e, inconclusive-typed dimension (sorted (i ∷ is))) refl,
    inl (
      (i, (exact i).0 (elem-here i is)),
      refl,
      refl,
      λ id. rw (elem-sorted (i ∷ is) id) (exact id),
    ),
  )

  -- In a policy of validated rules and unsupported clauses, on facts in their domain, a dimension is
  -- always resolved. When a clause is open, the result is inconclusive and names exactly the open
  -- clauses, whatever the rules say. Else the values that survive the overrides of the matching rules
  -- decide: without one it is a gap where the dimension is required and not applicable elsewhere,
  -- with one value it is that value, and with two different ones it is a conflict.
  pub resolve_dimension-IsDecided :
      (policy : PolicyIr) (traces : List RuleTrace)
      → All IsRule policy.rules
      → All IsClause policy.unsupported_clauses
      → IsInDomain facts
      → (r : DimensionResult) × (resolve_dimension dimension policy facts required traces ≡ ok r)
        × IsDecided policy traces r
  resolve_dimension-IsDecided policy traces rules clauses domain =
      let (ids, e) =
        open_clauses-ok dimension required facts policy.unsupported_clauses clauses domain in
      decided policy traces ids rules e
        (open_clauses-IsOpened dimension required facts policy.unsupported_clauses ids e)

  -- In a validated policy, on facts in their domain, a dimension that some matching rule supplies is
  -- resolved, and never a gap and never not applicable: the result is inconclusive when an unsupported
  -- clause is open, and a value or a conflict when none is.
  pub resolve_dimension-supplied :
      (policy : PolicyIr) (traces : List RuleTrace)
      → IsModel policy
      → IsInDomain facts
      → applicable dimension traces policy.rules ≢ []
      → (r : DimensionResult) × (resolve_dimension dimension policy facts required traces ≡ ok r)
        × ((((id : String) × IsOpened dimension required facts policy.unsupported_clauses id)
              × (r.status ≡ EffectStatus.inconclusive))
            ⊎ (((id : String) → ¬ IsOpened dimension required facts policy.unsupported_clauses id)
                × ((r.status ≡ EffectStatus.value) ⊎ (r.status ≡ EffectStatus.conflict))))
  resolve_dimension-supplied policy traces model domain some_rule =
      let (r, e, d) = resolve_dimension-IsDecided policy traces model.ruled model.claused domain in
      (
        r,
        e,
        elim d [
          | inl (opened, status, _, _) ↦ inl (opened, status)
          | inr (closed, inl (empty, _, _)) ↦
              absurd (effective-nonempty dimension policy traces model.consistent some_rule empty)
          | inr (closed, inr (inl (v, _, _, s, _))) ↦ inr (closed, inl s)
          | inr (closed, inr (inr (v, w, _, _, _, s, _))) ↦ inr (closed, inr s)
        ],
      )
