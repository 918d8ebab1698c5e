-- ===== src/Evaluation/Reports.antt =====
-- backend/app/domain/models/evaluation.py: the report of an evaluation.
use policyfuzz.Prelude.{String, not, List, map, has_duplicates, string_eq, Outcome, require}
use policyfuzz.Domain.Coverage.{CoverageSnapshot}
use policyfuzz.Domain.Finding.{InputHashes}
use policyfuzz.Evaluation.Engine.{ScenarioEvaluation}

pub record EvaluationReport : Type 0 where
  pub report_id : String
  pub inputs : InputHashes
  pub engine_version : String
  pub results : List ScenarioEvaluation
  pub coverage : CoverageSnapshot

unfoldable pub unique_results : EvaluationReport → Outcome (Unit {0})
unique_results report =
    require (not (has_duplicates (map (λ r. r.scenario_id) report.results)))
      "scenario evaluation IDs must be unique"
