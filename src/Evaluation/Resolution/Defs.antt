-- ===== src/Evaluation/Resolution/Defs.antt =====
-- `resolve_dimension`, with the validator of its result (backend/app/domain/models/evaluation.py).
-- The rules of a policy have unique identifiers, so the dictionary of rules is the list of them.
use policyfuzz.Prelude.{
  String, Bool, true, false, not, ◌&&◌, List, [], ◌∷◌, ◌++◌, map, keep, elem, distinct, length, leb,
  is_empty, ltb, sorted, text_lt, ◌==◌, string_eq, Outcome, ok, require, ◌>>=◌, ◌>>◌, each_ok,
  Option, none, some, if◌then◌else◌,
}
use policyfuzz.Domain.Vocabulary.{EffectDimension, dimension_eq, EffectStatus, effect_status_eq}
use policyfuzz.Domain.Rule.{
  Rule, EffectValue, text, amount, effect_value_eq, UnsupportedClause, supplies,
  validate_effect_value,
}
use policyfuzz.Domain.Policy.{PolicyIr, rule_ids}
use policyfuzz.Domain.Intent.{is_some}
use policyfuzz.Domain.Facts.{ScenarioFacts}
use policyfuzz.Evaluation.Predicates.{RuleTrace, evaluate_conditions, all_matched}

pub record DimensionResult : Type 0 where
  pub dimension : EffectDimension
  pub status : EffectStatus
  pub value : Option EffectValue
  pub conflicting_values : List EffectValue
  pub applicable_rule_ids : List String
  pub overridden_rule_ids : List String
  pub unsupported_clause_ids : List String

-- `if self.value is not None: validate_effect_value(...)`
abbrev pub check_value : EffectDimension → Option EffectValue → Outcome (Unit {0})
check_value dimension none = ok tt
check_value dimension (some v) = validate_effect_value dimension v

abbrev pub check_conflict : EffectStatus → List EffectValue → Outcome (Unit {0})
check_conflict EffectStatus.conflict vs =
    require (leb 2 (length (distinct vs))) "conflict requires at least two distinct values"
check_conflict _ vs = require (is_empty vs) "only CONFLICT results carry conflicting values"

abbrev pub iff : Bool → Bool → Bool
iff true b = b
iff false b = not b

-- `DimensionResult.typed_resolution`
unfoldable pub typed_resolution : DimensionResult → Outcome (Unit {0})
typed_resolution r = do
  require (iff (r.status == EffectStatus.value) (is_some r.value))
      "only VALUE results carry a resolved value"
  check_value r.dimension r.value
  each_ok (validate_effect_value r.dimension) r.conflicting_values
  check_conflict r.status r.conflicting_values

module _ (dimension : EffectDimension) where
  -- `{r.rule_id: r for r in policy.rules if ...}`: the matching rules that supply the dimension
  abbrev pub applicable : List RuleTrace → List Rule → List Rule
  applicable traces rules =
      keep
        (λ r.
          elem (map (λ t. t.rule_id) (keep (λ t. t.matched) traces)) r.rule_id
          && supplies r dimension)
        rules

  -- The targets of the rule's edges in the dimension.
  abbrev pub edges : Rule → List String
  edges r = map (λ e. e.target_rule_id) (keep (λ e. e.dimension == dimension) r.overrides)

  abbrev pub all_edges : List Rule → List String
  all_edges [] = []
  all_edges (r ∷ rs) = edges r ++ all_edges rs

  -- `removed`: all edges of applicable rules to applicable rules count at once.
  abbrev pub removed : List Rule → List String
  removed rules = distinct (keep (elem (rule_ids rules)) (all_edges rules))

  abbrev pub values_of : Rule → List EffectValue
  values_of r = map (λ e. e.value) (keep (λ e. e.dimension == dimension) r.effects)

  abbrev pub all_values : List Rule → List EffectValue
  all_values [] = []
  all_values (r ∷ rs) = values_of r ++ all_values rs

  -- The values of the rules that are not removed.
  abbrev pub effective : List Rule → List EffectValue
  effective rules = all_values (keep (λ r. not (elem (removed rules) r.rule_id)) rules)

  -- `tuple(sorted(values))`: the values of one dimension are all texts or all amounts.
  abbrev pub value_lt : EffectValue → EffectValue → Bool
  value_lt (text a) (text b) = text_lt a b
  value_lt (amount a) (amount b) = ltb a b
  value_lt _ _ = false

  abbrev pub place_value : EffectValue → List EffectValue → List EffectValue
  place_value v [] = v ∷ []
  place_value v (w ∷ ws) = if value_lt w v then w ∷ place_value v ws else v ∷ w ∷ ws

  abbrev pub sorted_values : List EffectValue → List EffectValue
  sorted_values [] = []
  sorted_values (v ∷ vs) = place_value v (sorted_values vs)

  abbrev common : List Rule → EffectStatus → Option EffectValue → List EffectValue → DimensionResult
  common rules status value conflicting = record {
    dimension = dimension;
    status = status;
    value = value;
    conflicting_values = conflicting;
    applicable_rule_ids = sorted (rule_ids rules);
    overridden_rule_ids = sorted (removed rules);
    unsupported_clause_ids = [];
  }

  -- The three ends of the function, by the set of values.
  unfoldable pub settle : List EffectDimension → List Rule → List EffectValue → DimensionResult
  settle required rules [] =
      common rules
        (if elem required dimension then EffectStatus.gap else EffectStatus.not_applicable) none []
  settle required rules (v ∷ []) = common rules EffectStatus.value (some v) []
  settle required rules (v ∷ w ∷ vs) =
      common rules EffectStatus.conflict none (sorted_values (v ∷ w ∷ vs))

  unfoldable pub resolve_rules : List EffectDimension → List Rule → DimensionResult
  unfolding settle
  resolve_rules required rules = settle required rules (distinct (effective rules))

  -- Whether an unsupported clause leaves the dimension open.
  abbrev pub clause_applies :
      List EffectDimension → ScenarioFacts → UnsupportedClause → Outcome Bool
  clause_applies required facts c =
      if elem c.affected_dimensions dimension
      then elim c.when_hint [
        | none ↦ ok (elem required dimension)
        | some hint ↦ evaluate_conditions hint facts >>= λ traces. ok (all_matched traces)
      ]
      else ok false

  unfoldable pub open_clauses :
      List EffectDimension → ScenarioFacts → List UnsupportedClause → Outcome (List String)
  open_clauses required facts [] = ok []
  open_clauses required facts (c ∷ cs) = do
    applies ← clause_applies required facts c
    rest ← open_clauses required facts cs
    ok (if applies then c.clause_id ∷ rest else rest)

  abbrev pub inconclusive : List String → DimensionResult
  inconclusive ids = record {
    dimension = dimension;
    status = EffectStatus.inconclusive;
    value = none;
    conflicting_values = [];
    applicable_rule_ids = [];
    overridden_rule_ids = [];
    unsupported_clause_ids = ids;
  }

  -- A result is built through its validator.
  abbrev built : DimensionResult → Outcome DimensionResult
  built r = typed_resolution r >> ok r

  unfoldable pub resolve_dimension :
      PolicyIr → ScenarioFacts → List EffectDimension → List RuleTrace → Outcome DimensionResult
  unfolding open_clauses resolve_rules
  resolve_dimension policy facts required traces = do
    unsupported ← open_clauses required facts policy.unsupported_clauses
    if is_empty unsupported
        then built (resolve_rules required (applicable traces policy.rules))
        else built (inconclusive (sorted unsupported))
