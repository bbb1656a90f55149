-- ===== src/Prelude.antt =====
-- The names that the other modules share: those of the libraries, and of the children, which hold
-- Boolean tests, interfaces of equality and order, lists, text, dictionaries, sorting and results.
mod Tests
mod Lists
mod Equality
mod Results
pub mod Text
pub mod Dict
pub mod Int
pub mod Sorting
pub mod TextOrder
pub mod Parts
pub use Tests.*
unfoldable pub use Lists.*
unfoldable pub use Equality.*
pub use Results.*
pub use Prim.Native.Nat.{ℕ, zero, suc, ◌+◌, ◌-◌, ◌*◌, ◌/◌, ◌%◌, ◌^◌, ◌≤◌, ◌<◌}
pub use Prim.Native.String.{String}
pub use mathlib.Core.Path.{◌≡◌, refl, sym, ap, subst, ◌∙◌}
pub use mathlib.Core.Logic.{◌≢◌, ◌↔◌, ◌⊎◌, inl, inr}
pub use mathlib.Core.Bool.{Bool, true, false, not, ◌&&◌, ◌||◌}
pub use mathlib.Core.Option.{Option, none, some}
pub use mathlib.Core.List.{List, [], ◌∷◌, ◌++◌, map}
pub use native.Mathlib.Omega.{arith}
