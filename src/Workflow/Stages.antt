-- ===== src/Workflow/Stages.antt =====
-- backend/app/workflow/state_machine.py: the stages of a run and the edges between them.
mod Defs
pub mod Reach
unfoldable pub use Defs.*
