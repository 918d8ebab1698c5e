-- ===== src/Evaluation/Resolution/Survivors.antt =====
-- Which rules and values survive the overrides.
use mathlib.Core.Bool.{false≢true}
use policyfuzz.Prelude.{
  String, ◌≤◌, ◌<◌, ◌≡◌, ◌≢◌, inl, inr, refl, sym, ◌∙◌, ap, Bool, true, false, not, ◌&&◌, List, [],
  ◌∷◌, ◌++◌, map, All, any, keep, elem, elem-append, elem-keep, elem-map-keep, elem-map-any,
  elem-distinct_eq, elem-distinct, any-elim, any-of_any, greatest, All-and, All-map, All-keep,
  All-of_keep, Bool-cases, ◌==◌, string_eq, some, arith, and_right,
}
use policyfuzz.Domain.Vocabulary.{EffectDimension, dimension_eq}
use policyfuzz.Domain.Rule.{Rule, EffectValue, effect_value_eq, supplies, Effect}
use policyfuzz.Domain.Policy.{PolicyIr, rule_ids, find_rule, graph, find_rule-elem, find_rule_self}
use policyfuzz.Domain.Policy.Validity.{IsRuleSet, IsRuleSet-IsOrdered}
use policyfuzz.Domain.Graph.{rank, rank-decreases}
use policyfuzz.Evaluation.Predicates.{RuleTrace}
use policyfuzz.Evaluation.Resolution.Defs.{
  applicable, edges, all_edges, removed, values_of, all_values, effective,
}

module _ (dimension : EffectDimension) where
  -- Rule `o` has an override edge in the dimension to the identifier.
  abbrev pub overrides_in : String → Rule → Bool
  overrides_in id o = any (λ e. (e.dimension == dimension) && (e.target_rule_id == id)) o.overrides

  elem-all_edges :
      (rules : List Rule) (id : String)
      → elem (all_edges dimension rules) id ≡ any (overrides_in id) rules
  elem-all_edges [] id = refl
  elem-all_edges (r ∷ rs) id =
      let head = elem-append (edges dimension r) (all_edges dimension rs) id in
      let mine =
        elem-map-keep (λ e. e.dimension == dimension) (λ e. e.target_rule_id) r.overrides id in
      rw (head, mine, elem-all_edges rs id)

  -- A rule is removed exactly when it is among the rules and one of them overrides it.
  pub elem-removed :
      (rules : List Rule) (id : String)
      → elem (removed dimension rules) id
        ≡ (elem (rule_ids rules) id && any (overrides_in id) rules)
  elem-removed rules id =
      elem-distinct_eq (keep (elem (rule_ids rules)) (all_edges dimension rules)) id
      ∙ elem-keep (elem (rule_ids rules)) (all_edges dimension rules) id
      ∙ ap (λ b. elem (rule_ids rules) id && b) (elem-all_edges rules id)

  -- An override of the rule found under an identifier is an edge of the policy's graph.
  graph-overrides :
      (rules : List Rule) (o : Rule) (id : String)
      → find_rule o.rule_id rules ≡ some o
      → overrides_in id o ≡ true
      → elem (graph rules o.rule_id) id ≡ true
  unfolding graph
  graph-overrides rules o id found h = rw found (
      elem-distinct id (map (λ e. e.target_rule_id) o.overrides) (
        elem-map-any (λ e. e.target_rule_id) o.overrides id
        ∙ any-of_any _ (λ e. e.target_rule_id == id) o.overrides
            (λ e k. and_right (e.dimension == dimension) (e.target_rule_id == id) k) h))

  values-of_supplies : (r : Rule) → supplies r dimension ≡ true → values_of dimension r ≢ []
  values-of_supplies r h = go r.effects h
    where
      go :
          (es : List Effect)
          → any (λ e. e.dimension == dimension) es ≡ true
          → map (λ e. e.value) (keep (λ e. e.dimension == dimension) es) ≢ []
      go [] h = λ e. absurd (false≢true h)
      go (e ∷ es) h = elim (Bool-cases (e.dimension == dimension)) [
        | inl same ↦ rw same (λ k. cc)
        | inr other ↦ rw other (go es (rw other at h))
      ]

  all_values-empty :
      (rules : List Rule)
      → all_values dimension rules ≡ []
      → All (λ r. values_of dimension r ≡ []) rules
  all_values-empty [] h = tt
  all_values-empty (r ∷ rs) h = (
    append-empty_left (values_of dimension r) _ h,
    all_values-empty rs (append-empty_right (values_of dimension r) _ h),
  )
    where
      append-empty_left : (xs ys : List EffectValue) → xs ++ ys ≡ [] → xs ≡ []
      append-empty_left [] ys h = refl
      append-empty_left (x ∷ xs) ys h = cc

      append-empty_right : (xs ys : List EffectValue) → xs ++ ys ≡ [] → ys ≡ []
      append-empty_right [] ys h = h
      append-empty_right (x ∷ xs) ys h = cc

  -- What is used of each applicable rule in the argument below.
  abbrev Used : PolicyIr → List Rule → Rule → Type 0
  Used policy rules r =
      (find_rule r.rule_id policy.rules ≡ some r)
      × (supplies r dimension ≡ true)
      × (not (elem (removed dimension rules) r.rule_id) ≡ true → values_of dimension r ≡ [])

  -- The rule that stands first in the order of overrides is not removed.
  first-not_removed :
      (policy : PolicyIr) (order : List String) (rules : List Rule) (m : Rule)
      → ((o : Rule)
          → find_rule o.rule_id policy.rules ≡ some o
          → overrides_in m.rule_id o ≡ true
          → rank order m.rule_id < rank order o.rule_id)
      → All
          (λ o.
            (find_rule o.rule_id policy.rules ≡ some o)
            × (rank order o.rule_id ≤ rank order m.rule_id))
          rules
      → elem (removed dimension rules) m.rule_id ≡ false
  first-not_removed policy order rules m below all_o =
      elim (Bool-cases (elem (removed dimension rules) m.rule_id)) [
        | inl gone ↦
            let hit =
              and_right (elem (rule_ids rules) m.rule_id) (any (overrides_in m.rule_id) rules)
                (sym (elem-removed rules m.rule_id) ∙ gone) in
            let (o, (found, le), over) = any-elim (overrides_in m.rule_id) _ rules all_o hit in
            let lt = below o found over in absurd (omega arith)
        | inr kept ↦ kept
      ]

  -- In a valid policy the overrides never remove all applicable rules: where a matching rule supplies
  -- the dimension, some value is left.
  pub effective-nonempty :
      (policy : PolicyIr) (traces : List RuleTrace)
      → IsRuleSet policy
      → applicable dimension traces policy.rules ≢ []
      → effective dimension (applicable dimension traces policy.rules) ≢ []
  effective-nonempty policy traces valid some_rule none_left =
      let rules : List Rule = applicable dimension traces policy.rules in
      let found =
        All-keep _
          (λ r.
            elem (map (λ t. t.rule_id) (keep (λ t. t.matched) traces)) r.rule_id
            && supplies r dimension)
          policy.rules (find_rule_self policy.rules valid.unique) in
      let silent =
        All-of_keep _ (λ r. not (elem (removed dimension rules) r.rule_id)) rules
          (all_values-empty _ none_left) in
      go rules refl found silent
    where
      go :
          (rules : List Rule)
          → applicable dimension traces policy.rules ≡ rules
          → All
              (λ r.
                (find_rule r.rule_id policy.rules ≡ some r)
                × ((elem (map (λ t. t.rule_id) (keep (λ t. t.matched) traces)) r.rule_id
                      && supplies r dimension)
                    ≡ true))
              rules
          → All
              (λ r.
                not (elem (removed dimension rules) r.rule_id) ≡ true → values_of dimension r ≡ [])
              rules
          → ⊥
      go [] e found silent = some_rule e
      go (x ∷ xs) e found silent =
          let (order, ordered, covers) = IsRuleSet-IsOrdered policy valid in
          let (m, ((fm, sm), quiet), above) =
            greatest _ (λ (r : Rule). rank order r.rule_id) x xs
              (All-and _ _ (x ∷ xs) found silent) in
          let kept =
            first-not_removed policy order (x ∷ xs) m
              (λ o fo over.
                (rank-decreases (graph policy.rules) order o.rule_id m.rule_id ordered
                  (covers o.rule_id (find_rule-elem o.rule_id policy.rules o fo))
                  (graph-overrides policy.rules o m.rule_id fo over)).1)
              (All-map (λ o (fo, le). (fo.0, le)) (x ∷ xs) (All-and _ _ (x ∷ xs) found above)) in
          values-of_supplies m (and_right _ (supplies m dimension) sm) (quiet (rw kept))
