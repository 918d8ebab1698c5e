-- ===== src/Domain/Coverage.antt =====
-- backend/app/domain/models/scenario.py: evidence of coverage and the snapshot of it.
use policyfuzz.Prelude.{
  String, ℕ, Bool, true, false, not, ◌&&◌, ◌||◌, List, leb, eqb, is_empty, Option, Outcome, require,
  ◌>>◌,
}
use policyfuzz.Domain.Intent.{is_some}

pub data CoverageTarget : Type 0 where
  rule invariant predicate_branch : CoverageTarget

abbrev pub is_branch : CoverageTarget → Bool
is_branch predicate_branch = true
is_branch _ = false

pub record CoverageEvidence : Type 0 where
  pub target_kind : CoverageTarget
  pub target_id : String
  pub scenario_ids : List String
  pub predicate_index : Option ℕ
  pub predicate_outcome : Option Bool

abbrev same_truth : Bool → Bool → Bool
same_truth true b = b
same_truth false b = not b

-- `CoverageEvidence.branch_coordinates`
unfoldable pub branch_coordinates : CoverageEvidence → Outcome (Unit {0})
branch_coordinates e = do
  require
      (same_truth (is_branch e.target_kind)
        (is_some e.predicate_index && is_some e.predicate_outcome))
      "predicate branch evidence requires index and outcome"
  require
      (is_branch e.target_kind || not (is_some e.predicate_index || is_some e.predicate_outcome))
      "rule and invariant evidence do not use branch coordinates"

pub data CoverageStatus : Type 0 where
  pending satisfied coverage_limit_exceeded : CoverageStatus

abbrev pub is_satisfied : CoverageStatus → Bool
is_satisfied satisfied = true
is_satisfied _ = false

pub record CoverageSnapshot : Type 0 where
  pub total_rules : ℕ
  pub covered_rules : ℕ
  pub total_invariants : ℕ
  pub covered_invariants : ℕ
  pub total_predicate_branches : ℕ
  pub covered_predicate_branches : ℕ
  pub evidence : List CoverageEvidence
  pub missing_rule_ids : List String
  pub missing_invariant_ids : List String
  pub targeted_cycles : ℕ
  pub status : CoverageStatus

-- `CoverageSnapshot.bounded_counts`
unfoldable pub bounded_counts : CoverageSnapshot → Outcome (Unit {0})
bounded_counts s = do
  require
      (leb s.covered_rules s.total_rules
        && (leb s.covered_invariants s.total_invariants
            && leb s.covered_predicate_branches s.total_predicate_branches))
      "covered count cannot exceed total"
  require
      (not (is_satisfied s.status)
        || (eqb s.covered_rules s.total_rules
            && (eqb s.covered_invariants s.total_invariants
                && (is_empty s.missing_rule_ids && is_empty s.missing_invariant_ids))))
      "minimum rule and invariant coverage is required"
