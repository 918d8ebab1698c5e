-- ===== src/Workflow/Stages/Defs.antt =====
-- The tables of the state machine, and `transition_to`. Of a run the fields are kept that the state
-- machine reads or changes; the others are copied.
use policyfuzz.Prelude.{
  String, ℕ, List, [], ◌∷◌, ◌++◌, Eq, Eq-of_discrete, elem, Option, if◌then◌else◌,
}

pub data RunStage : Type 0 where
  queued ingesting extracting awaiting_contract generating_initial_tests : RunStage
  provisional_execution targeting_coverage freezing_suite baseline_execution analyzing : RunStage
  awaiting_finding_review drafting_revision awaiting_revision_confirmation applying_revision
        retesting :
      RunStage
  complete completed_no_findings completed_no_revision contract_rejected revision_rejected :
      RunStage
  coverage_limit_exceeded failed : RunStage

pub data RunAction : Type 0 where
  confirm_contract reject_contract select_findings confirm_revision reject_revision : RunAction
  delete_run : RunAction

unfoldable pub RunStage-discrete : Discrete RunStage
RunStage-discrete = hlevel

instance abbrev pub stage_eq : Eq RunStage
unfolding RunStage-discrete
stage_eq = Eq-of_discrete RunStage-discrete

-- `_TRANSITIONS`
unfoldable pub transitions : RunStage → List RunStage
transitions queued = ingesting ∷ failed ∷ []
transitions ingesting = extracting ∷ failed ∷ []
transitions extracting = awaiting_contract ∷ failed ∷ []
transitions awaiting_contract = generating_initial_tests ∷ contract_rejected ∷ failed ∷ []
transitions generating_initial_tests = provisional_execution ∷ failed ∷ []
transitions provisional_execution =
    targeting_coverage ∷ freezing_suite ∷ coverage_limit_exceeded ∷ failed ∷ []
transitions targeting_coverage = freezing_suite ∷ coverage_limit_exceeded ∷ failed ∷ []
transitions freezing_suite = baseline_execution ∷ failed ∷ []
transitions baseline_execution = analyzing ∷ failed ∷ []
transitions analyzing = awaiting_finding_review ∷ completed_no_findings ∷ failed ∷ []
transitions awaiting_finding_review = drafting_revision ∷ completed_no_revision ∷ failed ∷ []
transitions drafting_revision = awaiting_revision_confirmation ∷ failed ∷ []
transitions awaiting_revision_confirmation = applying_revision ∷ revision_rejected ∷ failed ∷ []
transitions applying_revision = retesting ∷ failed ∷ []
transitions retesting = complete ∷ failed ∷ []
transitions complete = []
transitions completed_no_findings = []
transitions completed_no_revision = []
transitions contract_rejected = []
transitions revision_rejected = []
transitions coverage_limit_exceeded = []
transitions failed = []

-- `_ACTIONS.get(stage, _DELETE_ONLY)`
unfoldable pub allowed_actions : RunStage → List RunAction
allowed_actions awaiting_contract = confirm_contract ∷ delete_run ∷ []
allowed_actions awaiting_finding_review = select_findings ∷ delete_run ∷ []
allowed_actions awaiting_revision_confirmation = confirm_revision ∷ delete_run ∷ []
allowed_actions _ = delete_run ∷ []

-- `_EVENT_SUMMARIES[stage]`
unfoldable pub stage_summary : RunStage → String
stage_summary queued = "Run queued."
stage_summary ingesting = "Policy ingestion started."
stage_summary extracting = "Policy extraction started."
stage_summary awaiting_contract = "Review the policy contract and invariant severities."
stage_summary generating_initial_tests = "Initial test generation started."
stage_summary provisional_execution = "Provisional suite execution started."
stage_summary targeting_coverage = "Targeted coverage pass started."
stage_summary freezing_suite = "Scenario suite freezing started."
stage_summary baseline_execution = "Baseline execution started."
stage_summary analyzing = "Finding analysis started."
stage_summary awaiting_finding_review = "Findings are ready for review."
stage_summary drafting_revision = "Revision drafting started."
stage_summary awaiting_revision_confirmation = "Revision is ready for review."
stage_summary applying_revision = "Revision application started."
stage_summary retesting = "Revision retest started."
stage_summary complete = "Run completed."
stage_summary completed_no_findings = "Run completed with no reviewable findings."
stage_summary completed_no_revision = "Run completed without a revision."
stage_summary contract_rejected = "Policy contract was rejected."
stage_summary revision_rejected = "Revision was rejected."
stage_summary coverage_limit_exceeded = "Run stopped at the coverage limit."
stage_summary failed = "Run failed."

pub record RunEvent : Type 0 where
  pub timestamp : ℕ
  pub stage : RunStage
  pub action_summary : String
  pub artifact : Option String

-- The fields behind `run_id` are only copied and compared: they are one text.
pub record RunManifest : Type 0 where
  pub run_id : String
  pub settings : String

pub record StoredRun : Type 0 where
  pub run_id : String
  pub stage : RunStage
  pub version : ℕ
  pub manifest : RunManifest
  pub created_at : ℕ
  pub expires_at : ℕ
  pub events : List RunEvent

-- `InvalidRunStateError`, with the stage of the run and the actions it allows
pub data Transition : Type 0 where
  moved : StoredRun → Transition
  invalid_run_state : (current_stage : RunStage) (actions : List RunAction) → Transition

-- `now` is the wall clock; the copy keeps every field but the stage and the events.
unfoldable pub transition_to : ℕ → Option String → StoredRun → RunStage → Transition
unfolding transitions allowed_actions stage_summary
transition_to now artifact record_ stage =
    if elem (transitions record_.stage) stage
    then moved (record record_ {
      stage = stage;
      events =
          record_.events
          ++ (record {
            timestamp = now;
            stage = stage;
            action_summary = stage_summary stage;
            artifact = artifact;
          })
            ∷ [];
    })
    else invalid_run_state record_.stage (allowed_actions record_.stage)
