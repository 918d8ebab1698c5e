-- ===== src/Evaluation/RuleValidation/Defs.antt =====
-- `validate_rule_set`: the model validators again, then each rule with its own conditions and, in
-- each dimension it supplies, the overrides that start from it.
use policyfuzz.Prelude.{
  String, Bool, true, false, List, [], map, keep, distinct, ◌==◌, string_eq, Exception,
  rule_set_validation_error, type_error, recursion_error, key_error, stop_iteration, Outcome, ok,
  raised, ◌>>=◌, ◌>>◌, each_ok, Option, none, some,
}
use policyfuzz.Domain.Vocabulary.{EffectDimension, dimension_eq}
use policyfuzz.Domain.Digest.{sha256}
use policyfuzz.Domain.Drafts.{identifier, validate_rule, validate_clause}
use policyfuzz.Domain.Rule.{Rule, dimensions}
use policyfuzz.Domain.Policy.{PolicyIr, find_rule, recursion_limit, valid_rule_set}
use policyfuzz.Domain.Graph.{visit}
use policyfuzz.Evaluation.Conditions.{conditions_satisfiable}

-- `PolicyIR.model_validate(policy)`: instances are validated again, those that the policy holds
-- first.
abbrev pub validate_model : PolicyIr → Outcome (Unit {0})
validate_model policy = do
  identifier policy.policy_id
  sha256 policy.document_sha256
  each_ok validate_rule policy.rules
  each_ok validate_clause policy.unsupported_clauses
  valid_rule_set policy

-- `except ValueError`, which both validation errors are. Of the message its code is kept.
abbrev pub invalid_rule_set : Outcome (Unit {0}) → Outcome (Unit {0})
invalid_rule_set (ok tt) = ok tt
invalid_rule_set (raised type_error) = raised type_error
invalid_rule_set (raised recursion_error) = raised recursion_error
invalid_rule_set (raised key_error) = raised key_error
invalid_rule_set (raised stop_iteration) = raised stop_iteration
invalid_rule_set (raised _) = raised (rule_set_validation_error "INVALID_RULE_SET")

abbrev pub targets_in : EffectDimension → Option Rule → List String
targets_in dimension none = []
targets_in dimension (some r) =
    map (λ e. e.target_rule_id) (keep (λ e. e.dimension == dimension) r.overrides)

-- The edges of one dimension. The targets exist once the model is validated, so `rules[rule_id]`
-- finds its rule.
unfoldable pub dimension_graph : List Rule → EffectDimension → String → List String
unfolding find_rule
dimension_graph rules dimension rule_id = targets_in dimension (find_rule rule_id rules)

abbrev pub override_cycle : Exception
override_cycle = rule_set_validation_error "OVERRIDE_CYCLE"

-- The search from one rule, with sets of its own.
abbrev pub search_dimension : List Rule → String → EffectDimension → Outcome (Unit {0})
search_dimension rules rule_id dimension =
    visit (dimension_graph rules dimension) override_cycle recursion_limit [] [] rule_id >>= λ _.
    ok tt

abbrev pub require_satisfiable : Bool → Outcome (Unit {0})
require_satisfiable true = ok tt
require_satisfiable false = raised (rule_set_validation_error "UNSATISFIABLE")

abbrev pub check_rule : List Rule → Rule → Outcome (Unit {0})
check_rule rules rule = do
  satisfiable ← conditions_satisfiable rule.when
  require_satisfiable satisfiable
  each_ok (search_dimension rules rule.rule_id) (distinct (dimensions rule.effects))

unfoldable pub validate_rule_set : PolicyIr → Outcome (Unit {0})
unfolding dimension_graph
validate_rule_set policy = do
  invalid_rule_set (validate_model policy)
  each_ok (check_rule policy.rules) policy.rules
