-- ===== src/Base.antt =====
-- The names that every component shares: those of the libraries, passed on, and those of the
-- children, which hold the tests on numbers, lists, texts, results and dictionaries.
mod Boolean
mod Lists
mod Text
mod Failure
mod TextEnds
mod LowerCase
mod Dictionary
pub mod Int
pub use Boolean.*
unfoldable pub use Lists.*
unfoldable pub use Text.*
pub use LowerCase.*
pub use TextEnds.*
pub use Failure.*
unfoldable pub use Dictionary.*
pub use Prim.Native.Nat.{ℕ, zero, suc, ◌+◌, ◌-◌, ◌*◌, ◌/◌, ◌%◌, ◌^◌, ◌≤◌, ◌<◌}
pub use Prim.Native.String.{String}
pub use mathlib.Core.Path.{◌≡◌, refl, sym, ap, ◌∙◌}
pub use mathlib.Core.Logic.{◌≢◌, ◌↔◌, ◌⊎◌, inl, inr}
pub use mathlib.Core.Bool.{Bool, true, false, not, ◌&&◌, ◌||◌}
pub use mathlib.Core.Option.{Option, none, some}
pub use mathlib.Core.List.{List, [], ◌∷◌, ◌++◌, map}
pub use native.Mathlib.Omega.{arith}
pub use text.Mathlib.TextEquality.{eq_iff}
