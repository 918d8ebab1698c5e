-- ===== src/Evaluation/Suites/Traces.antt =====
-- The trace of a scenario names only rules of the policy and branches of their conditions.
use policyfuzz.Prelude.{
  String, ℕ, suc, ◌+◌, ◌≤◌, ◌<◌, ◌≡◌, refl, sym, ◌∙◌, ap, subst, Bool, true, false, ◌&&◌, ◌||◌,
  List, [], ◌∷◌, ◌++◌, map, keep, all, elem, length, string_eq, and_left, and_right, and_intro,
  all-of_elem, eqb, eqb→eq, nat_eq, Bool-cases, inl, inr, arith, Outcome, ok, >>=-eq-ok,
  ok-injective, map_ok, map_ok-map, sorted_by, place, text_lt, elem-append, elem-map-sorted_by,
}
use policyfuzz.Domain.Predicate.{Predicate}
use policyfuzz.Domain.Rule.{Rule}
use policyfuzz.Domain.Policy.{rule_ids}
use policyfuzz.Domain.Facts.{ScenarioFacts}
use policyfuzz.Evaluation.Predicates.{
  PredicateTrace, RuleTrace, rule_matches, evaluate_predicate, evaluate_conditions,
}
use policyfuzz.Evaluation.Engine.{EvaluationTrace, PredicateResult, numbered, all_numbered}
use policyfuzz.Evaluation.Suites.Evidence.{CoverageKey, branch_key, key_eq, branch_of}
use policyfuzz.Evaluation.Suites.Bounds.{branches, branches_at}

module _ {ℓ} {A : Type ℓ} where
  all-append : (p : A → Bool) (xs ys : List A) → all p (xs ++ ys) ≡ (all p xs && all p ys)
  all-append p [] ys = refl
  all-append p (x ∷ xs) ys = ground (arith, all-append p xs ys)

map_ok-length {ℓ κ} :
    {A : Type ℓ} {B : Type κ} (f : A → Outcome B) (xs : List A) (ys : List B)
    → map_ok f xs ≡ ok ys
    → length ys ≡ length xs
map_ok-length f [] ys h = rw (sym (ok-injective _ _ h)) refl
map_ok-length f (x ∷ xs) ys h =
    let (y, _, h1) = >>=-eq-ok (f x) _ h in
    let (rest, later, h2) = >>=-eq-ok (map_ok f xs) _ h1 in
    rw (sym (ok-injective _ _ h2)) (omega (arith, map_ok-length f xs rest later))

rule_matches-shape :
    (r : Rule) (facts : ScenarioFacts) (t : RuleTrace)
    → rule_matches r facts ≡ ok t
    → (t.rule_id ≡ r.rule_id) × (length t.predicates ≡ length r.when)
unfolding rule_matches evaluate_conditions
rule_matches-shape r facts t h =
    let (ps, found, e) = >>=-eq-ok (evaluate_conditions r.when facts) _ h in
    let built = ok-injective _ t e in
    (
      ap (λ (x : RuleTrace). x.rule_id) (sym built),
      ap (λ (x : RuleTrace). length x.predicates) (sym built)
          ∙ map_ok-length (λ p. evaluate_predicate p facts) r.when ps found,
    )

module _ (p : CoverageKey → Bool) where
  at_branch :
      (id : String) (i : ℕ) (ps : List Predicate) (j : ℕ) (b : Bool)
      → all p (branches_at id i ps) ≡ true
      → i ≤ j
      → j < i + length ps
      → p (branch_key id j b) ≡ true
  at_branch id i [] j b h le lt = absurd (omega arith)
  at_branch id i (x ∷ ps) j b h le lt = elim (Bool-cases (eqb i j)) [
    | inl here ↦
        rw (sym (eqb→eq i j here)) (either b (and_left _ _ h) (and_left _ _ (and_right _ _ h)))
    | inr away ↦
        at_branch id (suc i) ps j b (and_right _ _ (and_right _ _ h)) (ground arith) (omega arith)
  ]
    where
      either :
          (c : Bool)
          → p (branch_key id i true) ≡ true
          → p (branch_key id i false) ≡ true
          → p (branch_key id i c) ≡ true
      either true t f = t
      either false t f = f

  all-numbered :
      (id : String) (i : ℕ) (ts : List PredicateTrace)
      → ((j : ℕ) (b : Bool) → i ≤ j → j < i + length ts → p (branch_key id j b) ≡ true)
      → all p (map branch_of (numbered id i ts)) ≡ true
  all-numbered id i [] h = refl
  all-numbered id i (t ∷ ts) h =
      and_intro _ _ (h i t.matched (omega arith) (omega arith))
        (all-numbered id (suc i) ts (λ j b le lt. h j b (omega arith) (omega arith)))

  all-all_numbered :
      (facts : ScenarioFacts) (rules : List Rule) (ts : List RuleTrace)
      → map_ok (λ r. rule_matches r facts) rules ≡ ok ts
      → all p (branches rules) ≡ true
      → all p (map branch_of (all_numbered ts)) ≡ true
  all-all_numbered facts [] ts h a =
      subst (λ (x : List RuleTrace). all p (map branch_of (all_numbered x)) ≡ true)
        (ok-injective [] ts h) refl
  all-all_numbered facts (r ∷ rules) ts h a =
      let (t, found, h1) = >>=-eq-ok (rule_matches r facts) _ h in
      let (rest, later, h2) = >>=-eq-ok (map_ok (λ r. rule_matches r facts) rules) _ h1 in
      let both = sym (all-append p (branches_at r.rule_id 0 r.when) (branches rules)) ∙ a in
      let (named, long) = rule_matches-shape r facts t found in
      let mine : all p (map branch_of (numbered t.rule_id 0 t.predicates)) ≡ true = rw named (
        all-numbered r.rule_id 0 t.predicates
          (λ j b le lt. at_branch r.rule_id 0 r.when j b (and_left _ _ both) le (omega arith))) in
      let tail = all-all_numbered facts rules rest later (and_right _ _ both) in
      subst (λ (x : List RuleTrace). all p (map branch_of (all_numbered x)) ≡ true)
        (ok-injective (t ∷ rest) ts h2)
        (joined (numbered t.rule_id 0 t.predicates) (all_numbered rest) mine tail)
    where
      joined :
          (xs ys : List PredicateResult)
          → all p (map branch_of xs) ≡ true
          → all p (map branch_of ys) ≡ true
          → all p (map branch_of (xs ++ ys)) ≡ true
      joined [] ys h k = k
      joined (x ∷ xs) ys h k = ground (arith, joined xs ys)

elem-branches-place :
    (key : Rule → String) (r : Rule) (rs : List Rule) (k : CoverageKey)
    → elem (branches (place key r rs)) k ≡ elem (branches (r ∷ rs)) k
elem-branches-place key r [] k = refl
elem-branches-place key r (x ∷ rs) k = elim (Bool-cases (text_lt (key x) (key r))) [
  | inl less ↦ rw less (
      ground (
        arith,
        elem-branches-place key r rs k,
        elem-append (branches_at x.rule_id 0 x.when) (branches (place key r rs)) k,
        elem-append (branches_at x.rule_id 0 x.when) (branches rs) k,
        elem-append (branches_at r.rule_id 0 r.when) (branches rs) k,
        elem-append (branches_at r.rule_id 0 r.when) (branches_at x.rule_id 0 x.when ++ branches rs)
            k,
      ))
  | inr more ↦ rw more refl
]

elem-branches-sorted :
    (key : Rule → String) (rs : List Rule) (k : CoverageKey)
    → elem (branches (sorted_by key rs)) k ≡ elem (branches rs) k
elem-branches-sorted key [] k = refl
elem-branches-sorted key (r ∷ rs) k =
    elem-branches-place key r (sorted_by key rs) k
    ∙ elem-append (branches_at r.rule_id 0 r.when) (branches (sorted_by key rs)) k
    ∙ ap (λ b. elem (branches_at r.rule_id 0 r.when) k || b) (elem-branches-sorted key rs k)
    ∙ sym (elem-append (branches_at r.rule_id 0 r.when) (branches rs) k)

keep-all {ℓ} :
    {A : Type ℓ} (f : A → String) (p : String → Bool) (q : A → Bool) (xs : List A)
    → all p (map f xs) ≡ true
    → all p (map f (keep q xs)) ≡ true
keep-all f p q [] h = refl
keep-all f p q (x ∷ xs) h = ground (arith, keep-all f p q xs)

-- What the trace of an evaluation names
pub record IsTraced (rules : List Rule) (t : EvaluationTrace) : Type 0 where
  pub fired : all (elem (rule_ids rules)) t.fired_rule_ids ≡ true
  pub branched : all (elem (branches rules)) (map branch_of t.predicate_results) ≡ true

-- The part of a trace that the rules' traces determine
pub traced_rules :
    (rules : List Rule) (facts : ScenarioFacts) (ts : List RuleTrace)
    → map_ok (λ r. rule_matches r facts) (sorted_by (λ r. r.rule_id) rules) ≡ ok ts
    → (all (elem (rule_ids rules)) (map (λ t. t.rule_id) (keep (λ t. t.matched) ts)) ≡ true)
      × (all (elem (branches rules)) (map branch_of (all_numbered ts)) ≡ true)
traced_rules rules facts ts h = (
  keep-all (λ t. t.rule_id) (elem (rule_ids rules)) (λ t. t.matched) ts
      (rw
        (map_ok-map (λ r. rule_matches r facts) (λ t. t.rule_id) (λ r. r.rule_id)
          (λ r t e. (rule_matches-shape r facts t e).0) (sorted_by (λ r. r.rule_id) rules) ts h)
        (all-of_elem (elem (rule_ids rules)) (rule_ids (sorted_by (λ r. r.rule_id) rules))
          (λ a m. sym (elem-map-sorted_by (λ r. r.rule_id) (λ r. r.rule_id) rules a) ∙ m))),
  all-all_numbered (elem (branches rules)) facts (sorted_by (λ r. r.rule_id) rules) ts h (
      all-of_elem (elem (branches rules)) (branches (sorted_by (λ r. r.rule_id) rules))
        (λ a m. sym (elem-branches-sorted (λ r. r.rule_id) rules a) ∙ m)),
)
