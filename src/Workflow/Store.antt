-- ===== src/Workflow/Store.antt =====
-- backend/app/workflow/store.py: `RunStore`.
mod Entries
mod Defs
pub mod Unique
pub mod View
pub mod Mutations
pub mod Laws
pub mod Steps
pub mod Growth
pub mod Locks
pub mod Updates
pub mod Interleavings
unfoldable pub use Entries.*
unfoldable pub use Defs.*
