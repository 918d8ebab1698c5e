-- ===== src/Workflow.antt =====
-- backend/app/workflow: the stages of a run, and the store of runs.
pub mod Stages
pub mod Store
