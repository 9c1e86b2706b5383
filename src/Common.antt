-- ===== src/Common.antt =====
-- Names that the other modules share: the libraries' names, passed on, Boolean tests and lists
-- over the native numbers, signed integers, texts and string-keyed maps.
mod Tests
mod Lists
mod Steps
pub mod Int
pub mod Texts
pub mod Dict
pub mod Fnv
unfoldable pub use Tests.*
pub use Lists.*
unfoldable pub use Steps.*
pub use Prim.Native.Nat.{ℕ, zero, suc, ◌+◌, ◌-◌, ◌*◌, ◌/◌, ◌%◌, ◌^◌, ◌≤◌, ◌<◌}
pub use Prim.Native.String.{String}
pub use mathlib.Core.Path.{◌≡◌, refl, sym, ap, ◌∙◌, subst}
pub use mathlib.Core.Logic.{◌≢◌, ◌↔◌, ◌⊎◌, inl, inr}
pub use mathlib.Core.Bool.{Bool, true, false, not, ◌&&◌, ◌||◌}
pub use mathlib.Core.Option.{Option, none, some}
pub use mathlib.Core.List.{List, [], ◌∷◌, ◌++◌, map}
pub use native.Mathlib.Omega.{arith}
pub use text.Mathlib.TextEquality.{eq_iff}
