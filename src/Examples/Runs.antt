-- ===== src/Examples/Runs.antt =====
-- A run from its creation to its completion.
use policyfuzz.Prelude.{◌+◌, ◌≤◌, ◌≡◌, refl, true, [], ◌∷◌, All, elem, length, none, decide}
use policyfuzz.Workflow.Stages.{
  RunStage, RunStage-discrete, stage_eq, StoredRun, Transition, moved, transition_to,
}
use policyfuzz.Workflow.Stages.Reach.{
  Moves, stay, move, stages_of, remaining, Moves-bounded, complete-reviewed,
}

abbrev pub queued_run : StoredRun
queued_run = record {
  run_id = "r1";
  stage = RunStage.queued;
  version = 0;
  manifest = record { run_id = "r1"; settings = "" };
  created_at = 0;
  expires_at = 3_600;
  events = [];
}

abbrev after : Transition → StoredRun
after (moved r) = r
after _ = queued_run

advance : StoredRun → RunStage → StoredRun
unfolding transition_to
advance r stage = after (transition_to 1 none r stage)

abbrev at_ingesting : StoredRun
at_ingesting = advance queued_run RunStage.ingesting

abbrev at_extracting : StoredRun
at_extracting = advance at_ingesting RunStage.extracting

abbrev at_awaiting_contract : StoredRun
at_awaiting_contract = advance at_extracting RunStage.awaiting_contract

abbrev at_generating_initial_tests : StoredRun
at_generating_initial_tests = advance at_awaiting_contract RunStage.generating_initial_tests

abbrev at_provisional_execution : StoredRun
at_provisional_execution = advance at_generating_initial_tests RunStage.provisional_execution

abbrev at_freezing_suite : StoredRun
at_freezing_suite = advance at_provisional_execution RunStage.freezing_suite

abbrev at_baseline_execution : StoredRun
at_baseline_execution = advance at_freezing_suite RunStage.baseline_execution

abbrev at_analyzing : StoredRun
at_analyzing = advance at_baseline_execution RunStage.analyzing

abbrev at_awaiting_finding_review : StoredRun
at_awaiting_finding_review = advance at_analyzing RunStage.awaiting_finding_review

abbrev at_drafting_revision : StoredRun
at_drafting_revision = advance at_awaiting_finding_review RunStage.drafting_revision

abbrev at_awaiting_revision_confirmation : StoredRun
at_awaiting_revision_confirmation =
    advance at_drafting_revision RunStage.awaiting_revision_confirmation

abbrev at_applying_revision : StoredRun
at_applying_revision = advance at_awaiting_revision_confirmation RunStage.applying_revision

abbrev at_retesting : StoredRun
at_retesting = advance at_applying_revision RunStage.retesting

abbrev at_complete : StoredRun
at_complete = advance at_retesting RunStage.complete

finished : Moves 14 queued_run at_complete
unfolding advance transition_to RunStage-discrete decide
finished =
    move 1 none RunStage.complete
      (move 1 none RunStage.retesting
        (move 1 none RunStage.applying_revision
          (move 1 none RunStage.awaiting_revision_confirmation
            (move 1 none RunStage.drafting_revision
              (move 1 none RunStage.awaiting_finding_review
                (move 1 none RunStage.analyzing
                  (move 1 none RunStage.baseline_execution
                    (move 1 none RunStage.freezing_suite
                      (move 1 none RunStage.provisional_execution
                        (move 1 none RunStage.generating_initial_tests
                          (move 1 none RunStage.awaiting_contract
                            (move 1 none RunStage.extracting
                              (move 1 none RunStage.ingesting stay refl) refl)
                            refl)
                          refl)
                        refl)
                      refl)
                    refl)
                  refl)
                refl)
              refl)
            refl)
          refl)
        refl)
      refl

finished-complete : at_complete.stage ≡ RunStage.complete
unfolding advance transition_to RunStage-discrete decide
finished-complete = refl

bounded_example :
    (14 + remaining at_complete.stage ≤ remaining queued_run.stage)
    × (length (stages_of at_complete) ≡ 14 + length (stages_of queued_run))
bounded_example = Moves-bounded 14 queued_run at_complete finished

reviewed_example :
    All
      (λ review. elem (stages_of at_complete) review ≡ true)
      (RunStage.awaiting_contract ∷ RunStage.awaiting_finding_review
        ∷ RunStage.awaiting_revision_confirmation ∷ [])
reviewed_example = complete-reviewed 14 queued_run at_complete finished refl finished-complete
