-- ===== src/Evaluation/Suites/Evidence.antt =====
-- The dictionary of evidence that `evaluate` builds, and the snapshot of it.
use text.Mathlib.TextEquality.{eq_iff}
use policyfuzz.Prelude.{
  String, ℕ, ◌+◌, ◌*◌, ◌≡◌, ◌↔◌, Bool, true, false, not, ◌&&◌, ◌||◌, List, [], ◌∷◌, ◌++◌, map, keep,
  length, elem, distinct, is_empty, sorted, text_lt, ltb, eqb, eqb_iff, ◌==◌, Eq, string_eq, nat_eq,
  none, some, if◌then◌else◌, arith,
}
use policyfuzz.Domain.Coverage.{CoverageTarget, CoverageEvidence, CoverageStatus, CoverageSnapshot}
use policyfuzz.Domain.Rule.{Rule}
use policyfuzz.Domain.Policy.{rule_ids}
use policyfuzz.Domain.Intent.{Invariant}
use policyfuzz.Evaluation.Engine.{PredicateResult}

-- The three forms of the keys: `("rule", id, None, None)`, `("invariant", id, None, None)` and
-- `("predicate_branch", rule_id, index, matched)`.
pub data CoverageKey : Type 0 where
  rule_key : String → CoverageKey
  invariant_key : String → CoverageKey
  branch_key : (rule_id : String) (index : ℕ) (matched : Bool) → CoverageKey

abbrev bool_beq : Bool → Bool → Bool
bool_beq true b = b
bool_beq false b = not b

abbrev key_beq : CoverageKey → CoverageKey → Bool
key_beq (rule_key a) (rule_key b) = a == b
key_beq (invariant_key a) (invariant_key b) = a == b
key_beq (branch_key a i p) (branch_key b j q) = a == b && (eqb i j && bool_beq p q)
key_beq _ _ = false

pub key_beq_iff : (a b : CoverageKey) → (key_beq a b ≡ true) ↔ (a ≡ b)
key_beq_iff (rule_key a) (rule_key b) = ground (arith, eq_iff a b)
key_beq_iff (invariant_key a) (invariant_key b) = ground (arith, eq_iff a b)
key_beq_iff (branch_key a i p) (branch_key b j q) = ground (arith, eq_iff a b, eqb_iff i j)
key_beq_iff (rule_key a) (invariant_key b) = (λ h. cc, λ h. cc)
key_beq_iff (rule_key a) (branch_key b j q) = (λ h. cc, λ h. cc)
key_beq_iff (invariant_key a) (rule_key b) = (λ h. cc, λ h. cc)
key_beq_iff (invariant_key a) (branch_key b j q) = (λ h. cc, λ h. cc)
key_beq_iff (branch_key a i p) (rule_key b) = (λ h. cc, λ h. cc)
key_beq_iff (branch_key a i p) (invariant_key b) = (λ h. cc, λ h. cc)

instance abbrev pub key_eq : Eq CoverageKey
key_eq = record { beq = key_beq; beq_iff = key_beq_iff }

-- The entries of the dictionary, in the order of insertion
abbrev pub Evidence : Type 0
Evidence = List (CoverageKey × List String)

-- `evidence.setdefault(key, []).append(scenario_id)`
unfoldable pub note : String → CoverageKey → Evidence → Evidence
note scenario_id key [] = (key, scenario_id ∷ []) ∷ []
note scenario_id key ((k, ids) ∷ e) =
    if k == key then (k, ids ++ scenario_id ∷ []) ∷ e else (k, ids) ∷ note scenario_id key e

unfoldable pub note_all : String → List CoverageKey → Evidence → Evidence
unfolding note
note_all scenario_id [] e = e
note_all scenario_id (key ∷ keys) e = note_all scenario_id keys (note scenario_id key e)

abbrev pub branch_of : PredicateResult → CoverageKey
branch_of p = branch_key p.rule_id p.predicate_index p.matched

-- `key[1] for key in evidence if key[0] == "rule"`, and so on
abbrev pub rule_names : List CoverageKey → List String
rule_names [] = []
rule_names (rule_key id ∷ ks) = id ∷ rule_names ks
rule_names (_ ∷ ks) = rule_names ks

abbrev pub invariant_names : List CoverageKey → List String
invariant_names [] = []
invariant_names (invariant_key id ∷ ks) = id ∷ invariant_names ks
invariant_names (_ ∷ ks) = invariant_names ks

abbrev pub is_branch_key : CoverageKey → Bool
is_branch_key (branch_key a i p) = true
is_branch_key _ = false

abbrev pub keys : Evidence → List CoverageKey
keys e = map (λ p. p.0) e

-- The order of the keys as tuples: "invariant" < "predicate_branch" < "rule".
abbrev pub key_lt : CoverageKey → CoverageKey → Bool
key_lt (invariant_key a) (invariant_key b) = text_lt a b
key_lt (invariant_key a) _ = true
key_lt (branch_key a i p) (invariant_key b) = false
key_lt (branch_key a i p) (branch_key b j q) =
    text_lt a b || (a == b && (ltb i j || (eqb i j && (not p && q))))
key_lt (branch_key a i p) (rule_key b) = true
key_lt (rule_key a) (rule_key b) = text_lt a b
key_lt (rule_key a) _ = false

-- `sorted(evidence.items())`: the keys are distinct, so the values are never compared.
abbrev pub place_item : CoverageKey × List String → Evidence → Evidence
place_item p [] = p ∷ []
place_item p (q ∷ e) = if key_lt q.0 p.0 then q ∷ place_item p e else p ∷ q ∷ e

abbrev pub sorted_items : Evidence → Evidence
sorted_items [] = []
sorted_items (p ∷ e) = place_item p (sorted_items e)

abbrev pub evidence_item : CoverageKey × List String → CoverageEvidence
evidence_item p = elim p.0 [
  | rule_key id ↦ record {
    target_kind = CoverageTarget.rule;
    target_id = id;
    scenario_ids = sorted p.1;
    predicate_index = none;
    predicate_outcome = none;
  }
  | invariant_key id ↦ record {
    target_kind = CoverageTarget.invariant;
    target_id = id;
    scenario_ids = sorted p.1;
    predicate_index = none;
    predicate_outcome = none;
  }
  | branch_key id i b ↦ record {
    target_kind = CoverageTarget.predicate_branch;
    target_id = id;
    scenario_ids = sorted p.1;
    predicate_index = some i;
    predicate_outcome = some b;
  }
]

-- `sum(len(r.when) for r in rules)`
abbrev pub predicate_count : List Rule → ℕ
predicate_count [] = 0
predicate_count (r ∷ rs) = length r.when + predicate_count rs

-- The identifiers that are not covered, sorted
abbrev pub missing : List String → List String → List String
missing covered ids = sorted (keep (λ id. not (elem covered id)) ids)

abbrev pub invariant_ids : List Invariant → List String
invariant_ids is = map (λ i. i.invariant_id) is

-- `CoverageSnapshot(...)`
unfoldable pub snapshot : List Rule → List Invariant → Evidence → CoverageSnapshot
snapshot rules invariants e =
    let covered_rules = distinct (rule_names (keys e)) in
    let covered_invariants = distinct (invariant_names (keys e)) in
    let missing_rules = missing covered_rules (rule_ids rules) in
    let missing_invariants = missing covered_invariants (invariant_ids invariants) in
    record {
      total_rules = length rules;
      covered_rules = length covered_rules;
      total_invariants = length invariants;
      covered_invariants = length covered_invariants;
      total_predicate_branches = 2 * predicate_count rules;
      covered_predicate_branches = length (keep is_branch_key (keys e));
      evidence = map evidence_item (sorted_items e);
      missing_rule_ids = missing_rules;
      missing_invariant_ids = missing_invariants;
      targeted_cycles = 0;
      status =
          if is_empty missing_rules && is_empty missing_invariants
          then CoverageStatus.satisfied
          else CoverageStatus.pending;
    }
