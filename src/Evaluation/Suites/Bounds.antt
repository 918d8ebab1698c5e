-- ===== src/Evaluation/Suites/Bounds.antt =====
-- The snapshot of evidence on the rules and invariants of a request passes the validators of the
-- coverage models.
use policyfuzz.Prelude.{
  String, ℕ, suc, ◌*◌, ◌≤◌, ◌≡◌, refl, ◌∙◌, Bool, true, false, not, ◌&&◌, ◌||◌, List, [], ◌∷◌, ◌++◌,
  map, keep, all, length, length-append, elem, distinct, has_duplicates, is_empty, string_eq,
  nat_eq, eqb, leb, ok, each_ok, require, ◌>>◌, if◌then◌else◌, arith, length-subset, all-distinct,
  unique-keep, all-elem-keep, length-sorted_by, has_duplicates-distinct,
}
use policyfuzz.Domain.Coverage.{CoverageStatus, is_satisfied, bounded_counts, branch_coordinates}
use policyfuzz.Domain.Predicate.{Predicate}
use policyfuzz.Domain.Rule.{Rule}
use policyfuzz.Domain.Policy.{rule_ids}
use policyfuzz.Domain.Intent.{Invariant}
use policyfuzz.Evaluation.Suites.Evidence.{
  CoverageKey, rule_key, invariant_key, branch_key, key_eq, Evidence, keys, rule_names,
  invariant_names, is_branch_key, predicate_count, invariant_ids, missing, snapshot, evidence_item,
}

-- Both branches of each condition, from index `i` on
abbrev pub branches_at : String → ℕ → List Predicate → List CoverageKey
branches_at id i [] = []
branches_at id i (p ∷ ps) = branch_key id i true ∷ branch_key id i false ∷ branches_at id (suc i) ps

abbrev pub branches : List Rule → List CoverageKey
branches [] = []
branches (r ∷ rs) = branches_at r.rule_id 0 r.when ++ branches rs

-- The key is of a rule, an invariant or a branch of the request.
abbrev pub is_known : List Rule → List Invariant → CoverageKey → Bool
is_known rules invariants (rule_key id) = elem (rule_ids rules) id
is_known rules invariants (invariant_key id) = elem (invariant_ids invariants) id
is_known rules invariants (branch_key id i b) = elem (branches rules) (branch_key id i b)

length-branches_at :
    (id : String) (i : ℕ) (ps : List Predicate) → length (branches_at id i ps) ≡ 2 * length ps
length-branches_at id i [] = refl
length-branches_at id i (p ∷ ps) = omega (arith, length-branches_at id (suc i) ps)

length-branches : (rules : List Rule) → length (branches rules) ≡ 2 * predicate_count rules
length-branches [] = refl
length-branches (r ∷ rs) = omega (
  arith,
  length-append (branches_at r.rule_id 0 r.when) (branches rs),
  length-branches_at r.rule_id 0 r.when,
  length-branches rs,
)

module _ (rules : List Rule) (invariants : List Invariant) where
  known_rules :
      (ks : List CoverageKey)
      → all (is_known rules invariants) ks ≡ true
      → all (elem (rule_ids rules)) (rule_names ks) ≡ true
  known_rules [] h = refl
  known_rules (rule_key id ∷ ks) h = ground (arith, known_rules ks)
  known_rules (invariant_key id ∷ ks) h = ground (arith, known_rules ks)
  known_rules (branch_key id i b ∷ ks) h = ground (arith, known_rules ks)

  known_invariants :
      (ks : List CoverageKey)
      → all (is_known rules invariants) ks ≡ true
      → all (elem (invariant_ids invariants)) (invariant_names ks) ≡ true
  known_invariants [] h = refl
  known_invariants (rule_key id ∷ ks) h = ground (arith, known_invariants ks)
  known_invariants (invariant_key id ∷ ks) h = ground (arith, known_invariants ks)
  known_invariants (branch_key id i b ∷ ks) h = ground (arith, known_invariants ks)

  known_branches :
      (ks : List CoverageKey)
      → all (is_known rules invariants) ks ≡ true
      → all (elem (branches rules)) (keep is_branch_key ks) ≡ true
  known_branches [] h = refl
  known_branches (rule_key id ∷ ks) h = ground (arith, known_branches ks)
  known_branches (invariant_key id ∷ ks) h = ground (arith, known_branches ks)
  known_branches (branch_key id i b ∷ ks) h = ground (arith, known_branches ks)

length_zero {ℓ} : {A : Type ℓ} (xs : List A) → is_empty xs ≡ true → length xs ≡ 0
length_zero [] h = refl
length_zero (x ∷ xs) h = cc

-- Nothing is missing: as many are covered as there are.
all_covered :
    (covered ids : List String)
    → has_duplicates ids ≡ false
    → is_empty (missing covered ids) ≡ true
    → length ids ≤ length covered
all_covered covered ids unique none_missing =
    let left = keep (λ id. not (elem covered id)) ids in
    let sorted_length = length-sorted_by (λ s. s) left in
    let zero_length = length_zero (missing covered ids) none_missing in
    length-subset ids covered unique (all-elem-keep covered ids (omega arith))

length-map {ℓ κ} :
    {A : Type ℓ} {B : Type κ} (f : A → B) (xs : List A) → length (map f xs) ≡ length xs
length-map f [] = refl
length-map f (x ∷ xs) = omega (arith, length-map f xs)

record Counts (ids covered : List String) : Type 0 where
  bounded : length covered ≤ length ids
  complete : is_empty (missing covered ids) ≡ true → length covered ≡ length ids

count_ids :
    (ids names : List String)
    → has_duplicates ids ≡ false
    → all (elem ids) names ≡ true
    → Counts ids (distinct names)
count_ids ids names unique known =
    let few =
      length-subset (distinct names) ids (has_duplicates-distinct names)
        (all-distinct (elem ids) names known) in
    record {
      bounded = few;
      complete = λ none_missing.
          let all_ = all_covered (distinct names) ids unique none_missing in omega arith;
    }

module _ (rules : List Rule) (invariants : List Invariant) (e : Evidence) where
  pub bounded_counts-snapshot :
      has_duplicates (rule_ids rules) ≡ false
      → has_duplicates (invariant_ids invariants) ≡ false
      → has_duplicates (keys e) ≡ false
      → all (is_known rules invariants) (keys e) ≡ true
      → bounded_counts (snapshot rules invariants e) ≡ ok tt
  unfolding snapshot bounded_counts
  bounded_counts-snapshot unique_rules unique_invariants unique_keys known =
      let r =
        count_ids (rule_ids rules) (rule_names (keys e)) unique_rules
          (known_rules rules invariants (keys e) known) in
      let i =
        count_ids (invariant_ids invariants) (invariant_names (keys e)) unique_invariants
          (known_invariants rules invariants (keys e) known) in
      let b =
        length-subset (keep is_branch_key (keys e)) (branches rules)
          (unique-keep is_branch_key (keys e) unique_keys)
          (known_branches rules invariants (keys e) known) in
      let rules_length = length-map (λ (x : Rule). x.rule_id) rules in
      let invariants_length = length-map (λ (x : Invariant). x.invariant_id) invariants in
      let branches_length = length-branches rules in
      let rb = r.bounded in
      let ib = i.bounded in
      passes (length (distinct (rule_names (keys e)))) (length rules)
        (length (distinct (invariant_names (keys e)))) (length invariants)
        (length (keep is_branch_key (keys e))) (2 * predicate_count rules)
        (is_empty (missing (distinct (rule_names (keys e))) (rule_ids rules)))
        (is_empty (missing (distinct (invariant_names (keys e))) (invariant_ids invariants)))
        (omega arith) (omega arith) (omega arith) (λ h. r.complete h ∙ rules_length)
        (λ h. i.complete h ∙ invariants_length)
    where
      passes :
          (cr tr ci ti cb tb : ℕ) (mr mi : Bool)
          → cr ≤ tr
          → ci ≤ ti
          → cb ≤ tb
          → (mr ≡ true → cr ≡ tr)
          → (mi ≡ true → ci ≡ ti)
          → (require (leb cr tr && (leb ci ti && leb cb tb)) "covered count cannot exceed total"
              >> require
                  (not (
                      is_satisfied
                        (if mr && mi then CoverageStatus.satisfied else CoverageStatus.pending))
                    || (eqb cr tr && (eqb ci ti && (mr && mi))))
                  "minimum rule and invariant coverage is required")
            ≡ ok tt
      passes cr tr ci ti cb tb true true a b c d e =
          let d' = d refl in let e' = e refl in ground arith
      passes cr tr ci ti cb tb true false a b c d e = ground arith
      passes cr tr ci ti cb tb false mi a b c d e = ground arith

pub coordinates-evidence_item :
    (e : Evidence) → each_ok branch_coordinates (map evidence_item e) ≡ ok tt
unfolding branch_coordinates
coordinates-evidence_item [] = refl
coordinates-evidence_item ((rule_key id, ids) ∷ e) = coordinates-evidence_item e
coordinates-evidence_item ((invariant_key id, ids) ∷ e) = coordinates-evidence_item e
coordinates-evidence_item ((branch_key id i b, ids) ∷ e) = coordinates-evidence_item e
