-- ===== src/Domain/Scenario.antt =====
-- backend/app/domain/models/scenario.py: `Scenario` and its validator, and the frozen suite.
use policyfuzz.Prelude.{
  String, Bool, not, List, all, map, elem, has_duplicates, string_eq, Eq, Eq-of_discrete, Outcome,
  require, ◌>>◌, ℕ, Option, is_empty, leb, length,
}
use policyfuzz.Domain.Facts.{ScenarioFacts}
use policyfuzz.Domain.Intent.{Assertion, AssertionOrigin}

pub data ScenarioOrigin : Type 0 where
  gold session mechanical llm_exploratory : ScenarioOrigin

unfoldable pub ScenarioOrigin-discrete : Discrete ScenarioOrigin
ScenarioOrigin-discrete = hlevel

instance abbrev pub scenario_origin_eq : Eq ScenarioOrigin
unfolding ScenarioOrigin-discrete
scenario_origin_eq = Eq-of_discrete ScenarioOrigin-discrete

pub data ScenarioCategory : Type 0 where
  normal boundary adversarial : ScenarioCategory

pub data ScenarioPartition : Type 0 where
  visible holdout : ScenarioPartition

pub record Scenario : Type 0 where
  pub scenario_id : String
  pub category : ScenarioCategory
  pub origins : List ScenarioOrigin
  pub facts : ScenarioFacts
  pub target_rule_ids : List String
  pub target_invariant_ids : List String
  pub assertions : List Assertion
  pub protected : Bool
  pub partition : ScenarioPartition

-- `origin_mapping`
abbrev pub origin_mapping : AssertionOrigin → ScenarioOrigin
origin_mapping AssertionOrigin.gold = ScenarioOrigin.gold
origin_mapping AssertionOrigin.session_confirmed = ScenarioOrigin.session
origin_mapping AssertionOrigin.mechanical = ScenarioOrigin.mechanical

unfoldable pub independent_assertions : Scenario → Outcome (Unit {0})
independent_assertions scenario = do
  require (all (λ a. elem scenario.origins (origin_mapping a.origin)) scenario.assertions)
      "scored assertions require independently sourced scenario origins"
  require (not (has_duplicates (map (λ a. a.assertion_id) scenario.assertions)))
      "assertion IDs must be unique within a scenario"

pub data RejectionReason : Type 0 where
  invalid_facts invalid_assertion duplicate budget_exceeded incompatible_assertions :
      RejectionReason

pub record ScenarioRejection : Type 0 where
  pub candidate_id : String
  pub reason_code : RejectionReason
  pub duplicate_of : Option String

pub record SuiteStatistics : Type 0 where
  pub generated_count : ℕ
  pub rejected_count : ℕ
  pub duplicate_count : ℕ
  pub rejections : List ScenarioRejection

pub record ScenarioSuite : Type 0 where
  pub suite_id : String
  pub content_sha256 : String
  pub seed : ℕ
  pub document_sha256 : String
  pub policy_contract_sha256 : String
  pub rule_set_sha256 : String
  pub engine_version : String
  pub scenarios : List Scenario
  pub statistics : SuiteStatistics

unfoldable pub unique_scenarios : ScenarioSuite → Outcome (Unit {0})
unique_scenarios suite = do
  require (not (is_empty suite.scenarios)) "at least one scenario"
  require (leb (length suite.scenarios) 15) "at most 15 scenarios"
  require (not (has_duplicates (map (λ s. s.scenario_id) suite.scenarios)))
      "scenario IDs must be unique"
