-- ===== src/Prelude.antt =====
-- Names that the modules of this library share: those of the mounted libraries, passed on, and
-- the helpers of the child modules.
mod Tests
mod Lists
mod Equality
mod Membership
mod Int
mod Exceptions
mod Sorting
mod Counting
mod Loops
pub use Tests.*
pub use Lists.*
pub use Equality.*
pub use Membership.*
pub use Int.*
pub use Exceptions.*
pub use Sorting.*
pub use Counting.*
pub use Loops.*
pub use Prim.Native.Nat.{ℕ, zero, suc, ◌+◌, ◌-◌, ◌*◌, ◌/◌, ◌%◌, ◌≤◌, ◌<◌, min, max}
pub use Prim.Native.String.{String}
pub use mathlib.Core.Path.{◌≡◌, refl, sym, ap, ◌∙◌, subst}
pub use mathlib.Core.Logic.{◌≢◌, ◌↔◌, ◌⊎◌, inl, inr}
pub use mathlib.Core.Bool.{Bool, true, false, not, ◌&&◌, ◌||◌}
unfoldable pub use mathlib.Core.Bool.{decide}
pub use mathlib.Core.Option.{Option, none, some}
pub use mathlib.Core.List.{List, [], ◌∷◌, ◌++◌, map}
pub use native.Mathlib.Omega.{arith}
