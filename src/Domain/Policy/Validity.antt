-- ===== src/Domain/Policy/Validity.antt =====
-- What `valid_rule_set` accepts.
use policyfuzz.Prelude.{
  String, ◌≤◌, ◌≡◌, ◌↔◌, refl, true, false, not, List, [], ◌∷◌, All, all, all→All, All→all, elem,
  has_duplicates, length, leb, leb→le, le→leb, Outcome, ok, raised, value_error, arith, string_eq,
  ◌⊎◌, require->>, >>=-eq-ok,
}
use policyfuzz.Domain.Rule.{Rule}
use policyfuzz.Domain.Policy.Defs.{
  PolicyIr, rule_ids, has_target, graph, has_kind, recursion_limit, valid_rule_set,
}
use policyfuzz.Domain.Policy.Lookup.{graph-closed}
use policyfuzz.Domain.Graph.{
  visit_all, Leads, HasCycle, IsOrdered, visit_all-IsOrdered, visit_all-decides,
}

-- The override graph of a list of rules has no cycle.
abbrev pub IsAcyclic : List Rule → Type 0
IsAcyclic rules = (a : String) → elem (rule_ids rules) a ≡ true → ¬ Leads (graph rules) a a

pub record IsRuleSet (policy : PolicyIr) : Type 0 where
  pub bounded : length policy.rules ≤ 12
  pub unique : has_duplicates (rule_ids policy.rules) ≡ false
  pub kinded : has_kind policy.kind policy.rules ≡ true
  pub targeted : All (λ r. all (has_target policy.rules) r.overrides ≡ true) policy.rules
  pub acyclic : IsAcyclic policy.rules

pub length-rule_ids : (rules : List Rule) → length (rule_ids rules) ≡ length rules
length-rule_ids [] = refl
length-rule_ids (r ∷ rs) = omega (arith, length-rule_ids rs)

abbrev search_cycles : PolicyIr → Outcome (List String)
search_cycles policy =
    visit_all (graph policy.rules) (value_error "override cycles are invalid") recursion_limit
      (rule_ids policy.rules)

-- The search of the validator, once the targets exist and the rules are few.
decides :
    (policy : PolicyIr)
    → All (λ r. all (has_target policy.rules) r.overrides ≡ true) policy.rules
    → length policy.rules ≤ 12
    → (((after : List String) × (search_cycles policy ≡ ok after)) ↔ IsAcyclic policy.rules)
      × (((after : List String) × (search_cycles policy ≡ ok after))
          ⊎ ((search_cycles policy ≡ raised (value_error "override cycles are invalid"))
              × HasCycle (graph policy.rules) (rule_ids policy.rules)))
decides policy targeted few =
    visit_all-decides (graph policy.rules) (value_error "override cycles are invalid")
      (rule_ids policy.rules) (graph-closed policy.rules targeted) recursion_limit
      (omega (arith, length-rule_ids policy.rules))

-- The validator accepts exactly the policies with at most twelve rules of unique identifiers, with
-- text citations in a compiled baseline, whose override targets exist and supply the dimension of
-- the edge, and whose overrides have no cycle; the recursion of `visit` never meets Python's limit.
pub valid_rule_set-exact : (policy : PolicyIr) → (valid_rule_set policy ≡ ok tt) ↔ IsRuleSet policy
unfolding valid_rule_set
valid_rule_set-exact policy = (sound, complete)
  where
    sound : valid_rule_set policy ≡ ok tt → IsRuleSet policy
    sound h =
        let (bounded, h1) = require->> (leb (length policy.rules) 12) _ _ h in
        let (unique, h2) = require->> (not (has_duplicates (rule_ids policy.rules))) _ _ h1 in
        let (kinded, h3) = require->> (has_kind policy.kind policy.rules) _ _ h2 in
        let (targets, h4) =
          require->> (all (λ r. all (has_target policy.rules) r.overrides) policy.rules) _ _ h3 in
        let (visited, searched, _) =
          >>=-eq-ok
            (visit_all (graph policy.rules) (value_error "override cycles are invalid")
              recursion_limit (rule_ids policy.rules))
            _ h4 in
        let targeted =
          all→All (λ r. all (has_target policy.rules) r.overrides) policy.rules targets in
        record {
          bounded = leb→le _ _ bounded;
          unique = ground arith;
          kinded = kinded;
          targeted = targeted;
          acyclic = ((decides policy targeted (leb→le _ _ bounded)).0).0 (visited, searched);
        }

    complete : IsRuleSet policy → valid_rule_set policy ≡ ok tt
    complete v =
        let (visited, searched) = ((decides policy v.targeted v.bounded).0).1 v.acyclic in
        rw (
          le→leb _ _ v.bounded,
          v.unique,
          v.kinded,
          All→all (λ r. all (has_target policy.rules) r.overrides) policy.rules v.targeted,
          searched,
        )

-- The rules of such a policy stand in an order in which each overrides only later ones.
pub IsRuleSet-IsOrdered :
    (policy : PolicyIr)
    → IsRuleSet policy
    → (order : List String) × IsOrdered (graph policy.rules) order
      × ((a : String) → elem (rule_ids policy.rules) a ≡ true → elem order a ≡ true)
IsRuleSet-IsOrdered policy v =
    let (order, searched) = ((decides policy v.targeted v.bounded).0).1 v.acyclic in
    let (ordered, covers) =
      visit_all-IsOrdered (graph policy.rules) (value_error "override cycles are invalid")
        recursion_limit (rule_ids policy.rules) order searched in
    (order, ordered, covers)

-- When the validator accepts a policy, its rules stand in an order in which each overrides only
-- later ones.
pub valid_rule_set-IsOrdered :
    (policy : PolicyIr)
    → valid_rule_set policy ≡ ok tt
    → (order : List String) × IsOrdered (graph policy.rules) order
      × ((a : String) → elem (rule_ids policy.rules) a ≡ true → elem order a ≡ true)
valid_rule_set-IsOrdered policy accepted =
    IsRuleSet-IsOrdered policy ((valid_rule_set-exact policy).0 accepted)
