-- ===== src/Base.antt =====
-- The names that the other modules share: library names passed on, Boolean tests, equality of
-- keys, integers, Python dictionaries and lists.
mod Tests
mod Lists
mod Raising
pub mod Int
pub mod Dict
pub mod DictSize
pub mod Sorting
pub mod SortedDict
pub mod Search
pub mod Tally
pub use Tests.*
pub use Lists.*
pub use Raising.*
pub use Prim.Native.Nat.{ℕ, zero, suc, ◌+◌, ◌-◌, ◌*◌, ◌/◌, ◌%◌, ◌^◌, ◌≤◌, ◌<◌, max, min}
pub use Prim.Native.String.{String}
pub use mathlib.Core.Path.{◌≡◌, refl, sym, ap, subst, ◌∙◌}
pub use mathlib.Core.Logic.{◌≢◌, ◌↔◌, ◌⊎◌, inl, inr}
pub use mathlib.Core.Bool.{Bool, true, false, not, ◌&&◌, ◌||◌}
pub use mathlib.Core.Option.{Option, none, some}
pub use mathlib.Core.List.{List, [], ◌∷◌, ◌++◌, map}
pub use native.Mathlib.Omega.{arith}
