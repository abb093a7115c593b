-- ===== src/Prelude.antt =====
-- What the components share: library names passed on, Boolean tests, signed integers for instants
-- and durations, results with `do`, text as code points, lists, and tables keyed by strings.
mod Tests
mod Int
mod Lists
mod Results
mod Strings
mod Trim
mod Keyed
mod Decimal
mod Utf8
pub use Tests.*
unfoldable pub use Int.*
pub use Lists.*
pub use Results.*
unfoldable pub use Strings.*
pub use Trim.*
pub use Keyed.*
unfoldable pub use Decimal.*
unfoldable pub use Utf8.*
pub use Prim.Native.Nat.{min, ℕ, zero, suc, ◌+◌, ◌-◌, ◌*◌, ◌/◌, ◌%◌, ◌^◌, ◌≤◌, ◌<◌}
pub use Prim.Native.String.{String}
pub use mathlib.Core.Path.{◌≡◌, refl, sym, ap, subst, ◌∙◌}
pub use mathlib.Core.Logic.{◌≢◌, ◌↔◌, ◌⊎◌, inl, inr}
pub use mathlib.Core.Bool.{Bool, true, false, not, ◌&&◌, ◌||◌}
pub use mathlib.Core.Option.{Option, none, some}
pub use mathlib.Core.List.{List, [], ◌∷◌, ◌++◌, map}
pub use native.Mathlib.Omega.{arith}
pub use text.Mathlib.TextEquality.{eq_iff}
pub use text.Mathlib.TextPositions.{eq_refl}
