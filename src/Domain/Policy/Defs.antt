-- ===== src/Domain/Policy/Defs.antt =====
-- backend/app/domain/models/policy.py: `PolicyIR` and its validator `valid_rule_set`.
use policyfuzz.Prelude.{
  String, ℕ, Bool, true, false, not, List, [], ◌∷◌, all, map, has_duplicates, distinct, length, leb,
  ◌==◌, string_eq, Outcome, ok, require, ◌>>=◌, ◌>>◌, Option, none, some, value_error,
  if◌then◌else◌,
}
use policyfuzz.Domain.Vocabulary.{dimension_eq}
use policyfuzz.Domain.Rule.{Rule, text_citation, OverrideRef, UnsupportedClause, supplies}
use policyfuzz.Domain.Graph.{visit_all}

pub data PolicyKind : Type 0 where
  compiled_baseline structured_revision : PolicyKind

pub record PolicyIr : Type 0 where
  pub policy_id : String
  pub document_sha256 : String
  pub kind : PolicyKind
  pub rules : List Rule
  pub unsupported_clauses : List UnsupportedClause

-- `{r.rule_id: r for r in rules}.get(rule_id)`: the identifiers are unique where this is used.
unfoldable pub find_rule : String → List Rule → Option Rule
find_rule rule_id [] = none
find_rule rule_id (r ∷ rs) = if r.rule_id == rule_id then some r else find_rule rule_id rs

abbrev pub rule_ids : List Rule → List String
rule_ids rules = map (λ r. r.rule_id) rules

abbrev cites_text : Rule → Bool
cites_text rule = elim rule.provenance [ text_citation c s ↦ true | _ ↦ false ]

-- The target exists and supplies the dimension of the edge.
abbrev pub has_target : List Rule → OverrideRef → Bool
has_target rules edge = elim (find_rule edge.target_rule_id rules) [
  | none ↦ false
  | some target ↦ supplies target edge.dimension
]

abbrev overrides_of : Option Rule → List OverrideRef
overrides_of none = []
overrides_of (some rule) = rule.overrides

-- `graph[rule_id]`
unfoldable pub graph : List Rule → String → List String
unfolding find_rule
graph rules rule_id =
    distinct (map (λ e. e.target_rule_id) (overrides_of (find_rule rule_id rules)))

abbrev pub has_kind : PolicyKind → List Rule → Bool
has_kind PolicyKind.compiled_baseline rules = all cites_text rules
has_kind PolicyKind.structured_revision rules = true

-- Python's recursion limit is far above the twelve rules that a policy may hold.
abbrev pub recursion_limit : ℕ
recursion_limit = 1000

unfoldable pub valid_rule_set : PolicyIr → Outcome (Unit {0})
unfolding graph find_rule
valid_rule_set policy = do
  require (leb (length policy.rules) 12) "at most 12 rules"
  require (not (has_duplicates (rule_ids policy.rules))) "rule IDs must be unique"
  require (has_kind policy.kind policy.rules) "compiled baseline requires text citations"
  require (all (λ r. all (has_target policy.rules) r.overrides) policy.rules)
      "override target and effect dimension must exist"
  visited ←
      visit_all (graph policy.rules) (value_error "override cycles are invalid") recursion_limit
        (rule_ids policy.rules)
  ok tt
