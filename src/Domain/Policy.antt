-- ===== src/Domain/Policy.antt =====
-- The policy, its validator, and what the validator establishes.
mod Defs
mod Lookup
pub mod Validity
unfoldable pub use Defs.*
pub use Lookup.*
