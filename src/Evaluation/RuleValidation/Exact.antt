-- ===== src/Evaluation/RuleValidation/Exact.antt =====
-- What `validate_rule_set` accepts.
use mathlib.Core.Bool.{false≢true}
use policyfuzz.Prelude.{
  String, ◌≡◌, ◌↔◌, ◌<◌, refl, ◌&&◌, Bool, true, List, [], ◌∷◌, All, All-map, any, map, elem,
  distinct, length, ◌==◌, string_eq, Outcome, ok, raised, each_ok, each_ok→All, All→each_ok,
  All-of_elem, elem-distinct, some, Option-cases, Bool-cases, >>=-eq-ok, inl, inr, elem-map-keep,
  elem-map-any, arith, elem-here, elem-there, ok-injective,
}
use policyfuzz.Domain.Vocabulary.{EffectDimension, dimension_eq, field_eq}
use policyfuzz.Domain.Digest.{sha256, IsDigest, sha256-IsDigest}
use policyfuzz.Domain.Drafts.{identifier, validate_rule, validate_clause}
use policyfuzz.Domain.Drafts.Parts.{
  IsIdentifier, IsStored, IsRule, IsClause, identifier_iff, each_iff,
}
use policyfuzz.Domain.Drafts.Exact.{validate_rule-exact, validate_clause-exact}
use policyfuzz.Domain.Facts.{ScenarioFacts, IsInDomain}
use policyfuzz.Domain.Rule.{Rule, OverrideRef, dimensions}
use policyfuzz.Domain.Policy.{PolicyIr, find_rule, rule_ids, recursion_limit, graph, graph-closed}
use policyfuzz.Domain.Policy.Validity.{IsRuleSet, valid_rule_set-exact, length-rule_ids}
use policyfuzz.Domain.Graph.{Leads-mono, visit-acyclic}
use policyfuzz.Evaluation.Predicates.{IsValidated}
use policyfuzz.Evaluation.Conditions.{conditions_satisfiable}
use policyfuzz.Evaluation.Conditions.Results.{NoDailyTotal}
use policyfuzz.Evaluation.Conditions.Satisfiable.{Matches, conditions_satisfiable-exact}
use policyfuzz.Evaluation.RuleValidation.Defs.{
  validate_model, invalid_rule_set, targets_in, dimension_graph, override_cycle, search_dimension,
  check_rule, validate_rule_set,
}

-- The edges of one dimension are edges of the graph.
any-and :
    (p q : OverrideRef → Bool) (xs : List OverrideRef)
    → any (λ x. p x && q x) xs ≡ true
    → any q xs ≡ true
any-and p q [] h = h
any-and p q (x ∷ xs) h = ground (arith, any-and p q xs)

targets_in-graph :
    (dimension : EffectDimension) (r : Rule) (b : String)
    → elem (targets_in dimension (some r)) b ≡ true
    → elem (map (λ e. e.target_rule_id) r.overrides) b ≡ true
targets_in-graph dimension r b h =
    let wide =
      any-and (λ e. e.dimension == dimension) (λ e. e.target_rule_id == b) r.overrides
        (rw (elem-map-keep (λ e. e.dimension == dimension) (λ e. e.target_rule_id) r.overrides b) at
          h) in
    rw (elem-map-any (λ e. e.target_rule_id) r.overrides b) wide

dimension_graph-graph :
    (rules : List Rule) (dimension : EffectDimension) (a b : String)
    → elem (dimension_graph rules dimension a) b ≡ true
    → elem (graph rules a) b ≡ true
unfolding dimension_graph graph
dimension_graph-graph rules dimension a b h = elim (Option-cases (find_rule a rules)) [
  | inl absent ↦ absurd (false≢true (rw absent at h))
  | inr (r, found) ↦ rw found (
      elem-distinct b (map (λ e. e.target_rule_id) r.overrides)
        (targets_in-graph dimension r b (rw found at h)))
]

-- In a valid rule set no search of one dimension finds a cycle.
search_dimension-ok :
    (policy : PolicyIr) (id : String) (dimension : EffectDimension)
    → IsRuleSet policy
    → elem (rule_ids policy.rules) id ≡ true
    → search_dimension policy.rules id dimension ≡ ok tt
search_dimension-ok policy id dimension v m =
    let (after, e) =
      visit-acyclic (dimension_graph policy.rules dimension) override_cycle (rule_ids policy.rules)
        (λ a b ma edge.
          graph-closed policy.rules v.targeted a b ma
            (dimension_graph-graph policy.rules dimension a b edge))
        recursion_limit id few m
        (λ a ma p. v.acyclic a ma (
          Leads-mono (dimension_graph policy.rules dimension) (graph policy.rules)
            (dimension_graph-graph policy.rules dimension) p)) in
    rw e
  where
    few : length (rule_ids policy.rules) < recursion_limit
    few = let n = length-rule_ids policy.rules in let b = v.bounded in omega arith

invalid_rule_set-ok : (m : Outcome (Unit {0})) → invalid_rule_set m ≡ ok tt → m ≡ ok tt
invalid_rule_set-ok (ok tt) h = refl
invalid_rule_set-ok (raised e) h = ground arith

-- Some facts in their domain match the conditions.
abbrev pub CanFire : Rule → Type 0
CanFire r = (facts : ScenarioFacts) × IsInDomain facts × Matches r.when facts

All-zip {κ μ ν} :
    {P : Rule → Type κ} {Q : Rule → Type μ} {R : Rule → Type ν}
    → ((r : Rule) → P r → Q r → R r)
    → (rs : List Rule) → All P rs
    → All Q rs
    → All R rs
All-zip f [] ps qs = tt
All-zip f (r ∷ rs) ps qs = (f r ps.0 qs.0, All-zip f rs ps.1 qs.1)

listed : (rules : List Rule) → All (λ r. elem (rule_ids rules) r.rule_id ≡ true) rules
listed [] = tt
listed (r ∷ rs) = (
  elem-here r.rule_id (rule_ids rs),
  All-map (λ q m. elem-there r.rule_id q.rule_id (rule_ids rs) m) rs (listed rs),
)

CanFire-iff : (r : Rule) → IsRule r → (conditions_satisfiable r.when ≡ ok true) ↔ CanFire r
CanFire-iff r v =
    let typed : All IsValidated r.when = All-map (λ p (h : IsStored p). h.0) r.when v.conditions in
    let daily : NoDailyTotal r.when = All-map (λ p (h : IsStored p). h.1) r.when v.conditions in
    let (b, returned, exact) = conditions_satisfiable-exact r.when typed daily in
    (λ e. exact.0 (ok-injective b true (rw returned at e)), λ f. rw (returned, exact.1 f))

check_rule-ok :
    (policy : PolicyIr) (r : Rule)
    → IsRuleSet policy
    → elem (rule_ids policy.rules) r.rule_id ≡ true
    → conditions_satisfiable r.when ≡ ok true
    → check_rule policy.rules r ≡ ok tt
check_rule-ok policy r v m e = rw (
  e,
  All→each_ok (search_dimension policy.rules r.rule_id) (distinct (dimensions r.effects)) (
      All-of_elem _ (distinct (dimensions r.effects))
        (λ d _. search_dimension-ok policy r.rule_id d v m)),
)

check_rule-satisfiable :
    (rules : List Rule) (r : Rule)
    → check_rule rules r ≡ ok tt
    → conditions_satisfiable r.when ≡ ok true
check_rule-satisfiable rules r h =
    let (b, e, rest) = >>=-eq-ok (conditions_satisfiable r.when) _ h in
    elim (Bool-cases b) [
      | inl satisfiable ↦ rw satisfiable at e
      | inr impossible ↦ cc (rw impossible at rest)
    ]

-- What `PolicyIR.model_validate` asks of a policy and of the parts that it holds
pub record IsModel (policy : PolicyIr) : Type 0 where
  pub named : IsIdentifier policy.policy_id
  pub hashed : IsDigest policy.document_sha256
  pub ruled : All IsRule policy.rules
  pub claused : All IsClause policy.unsupported_clauses
  pub consistent : IsRuleSet policy

-- The model validators accept exactly these policies.
pub validate_model-exact : (policy : PolicyIr) → (validate_model policy ≡ ok tt) ↔ IsModel policy
validate_model-exact policy = (
  λ h.
      let (_, named, h1) = >>=-eq-ok (identifier policy.policy_id) _ h in
      let (_, hashed, h0) = >>=-eq-ok (sha256 policy.document_sha256) _ h1 in
      let (_, ruled, h2) = >>=-eq-ok (each_ok validate_rule policy.rules) _ h0 in
      let (_, claused, h3) = >>=-eq-ok (each_ok validate_clause policy.unsupported_clauses) _ h2 in
      record {
        named = (identifier_iff policy.policy_id).0 named;
        hashed = (sha256-IsDigest policy.document_sha256).0 hashed;
        ruled = (each_iff validate_rule validate_rule-exact policy.rules).0 ruled;
        claused =
            (each_iff validate_clause validate_clause-exact policy.unsupported_clauses).0 claused;
        consistent = (valid_rule_set-exact policy).0 h3;
      },
  λ v.
      rw
        (
          (identifier_iff policy.policy_id).1 v.named,
          (sha256-IsDigest policy.document_sha256).1 v.hashed,
          (each_iff validate_rule validate_rule-exact policy.rules).1 v.ruled,
          (each_iff validate_clause validate_clause-exact policy.unsupported_clauses).1 v.claused,
        )
        ((valid_rule_set-exact policy).1 v.consistent),
)

-- `validate_rule_set` accepts exactly the policies that meet `IsModel` and each of whose rules is
-- matched by some facts in their domain: `IsModel` asks for well-formed rules and unsupported
-- clauses (identifiers and texts of allowed lengths, digests of 64 hexadecimal digits, ordered
-- spans, at least one effect or affected dimension, typed values, typed conditions and hints on
-- stored facts), at most twelve rules of unique identifiers, text citations in a compiled baseline,
-- and overrides with existing targets and without a cycle. The search for cycles in each dimension
-- rejects nothing that the validator of the policy has let pass.
pub validate_rule_set-exact :
    (policy : PolicyIr)
    → (validate_rule_set policy ≡ ok tt) ↔ (IsModel policy × All CanFire policy.rules)
unfolding validate_rule_set
validate_rule_set-exact policy = (sound, complete)
  where
    sound : validate_rule_set policy ≡ ok tt → IsModel policy × All CanFire policy.rules
    sound h =
        let (_, accepted, rest) = >>=-eq-ok (invalid_rule_set (validate_model policy)) _ h in
        let model =
          (validate_model-exact policy).0 (invalid_rule_set-ok (validate_model policy) accepted) in
        (
          model,
          All-zip (λ r v c. (CanFire-iff r v).0 (check_rule-satisfiable policy.rules r c))
              policy.rules model.ruled (each_ok→All (check_rule policy.rules) policy.rules rest),
        )

    complete : IsModel policy × All CanFire policy.rules → validate_rule_set policy ≡ ok tt
    complete (model, fire) = rw (
      (validate_model-exact policy).1 model,
      All→each_ok (check_rule policy.rules) policy.rules (
          All-zip (λ r s m. check_rule-ok policy r model.consistent m s) policy.rules
            (All-zip (λ r v f. (CanFire-iff r v).1 f) policy.rules model.ruled fire)
            (listed policy.rules)),
    )
