-- ===== src/Prelude.antt =====
-- The names that all modules share: those of the libraries, and those of the children. A Go map is
-- an association list (`Maps`); the order of its entries stands for the order of a `range` over it.
mod Tests
mod Lists
mod Keys
mod Maps
mod Sorting
mod Integers
mod Subsets
mod Results
mod Texts
pub use Tests.*
pub use Lists.*
pub use Keys.*
pub use Maps.*
pub use Sorting.*
pub use Integers.*
pub use Subsets.*
pub use Results.*
pub use Texts.*
unfoldable pub use Sorting.{sort_strings}
unfoldable pub use Maps.{lookup, insert, delete}
unfoldable pub use Texts.{text_length}
unfoldable pub use Keys.{String-discrete}
pub use Prim.Native.Nat.{ℕ, zero, suc, ◌+◌, ◌-◌, ◌*◌, ◌/◌, ◌≤◌, ◌<◌}
pub use Prim.Native.String.{String}
pub use mathlib.Core.Path.{◌≡◌, refl, sym, ap, ◌∙◌, subst}
pub use mathlib.Core.Logic.{◌≢◌, ◌↔◌, ◌⊎◌, inl, inr}
pub use mathlib.Core.Bool.{Bool, true, false, not, ◌&&◌, ◌||◌}
pub use mathlib.Core.Option.{Option, none, some}
pub use mathlib.Core.List.{List, [], ◌∷◌, ◌++◌, map}
pub use native.Mathlib.Omega.{arith}
