-- ===== src/Prelude.antt =====
-- The names that the modules of the development share: the libraries', passed on, and those of the
-- children (tests, equality, lists, dictionaries, results, floating point).
pub mod Tests
pub mod Equality
pub mod Lists
pub mod Dict
pub mod Floats
pub mod Micro
pub mod Bounds
pub mod Sorting
pub mod Text
pub mod Extremes
pub use Tests.*
pub use Equality.*
pub use Lists.*
pub use Prim.Native.Nat.{ℕ, zero, suc, ◌+◌, ◌-◌, ◌*◌, ◌/◌, ◌%◌, ◌^◌, ◌≤◌, ◌<◌, min, max}
pub use Prim.Native.String.{String}
pub use mathlib.Core.Path.{◌≡◌, refl, sym, subst, ap, ◌∙◌}
pub use mathlib.Core.Logic.{◌≢◌, ◌↔◌, ◌⊎◌, inl, inr}
pub use mathlib.Core.Bool.{Bool, true, false, not, ◌&&◌, ◌||◌}
pub use mathlib.Core.Option.{Option, none, some}
pub use mathlib.Core.List.{List, [], ◌∷◌, ◌++◌, map, foldl}
pub use native.Mathlib.Omega.{arith}
