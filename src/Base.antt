-- ===== src/Base.antt =====
-- The names that the other modules share: the libraries' names, passed on, with Boolean tests,
-- lists measured by native numbers and signed integers (the C `int`).
mod Tests
mod Lists
mod Cells
mod Options
pub mod Bits
pub mod Words
pub mod Int
pub mod Text
pub use Tests.*
pub use Lists.*
unfoldable pub use Cells.{sum, memset}
pub use Cells.*
pub use Options.*
pub use Prim.Native.Nat.{ℕ, zero, suc, ◌+◌, ◌-◌, ◌*◌, ◌/◌, ◌%◌, ◌^◌, ◌≤◌, ◌<◌}
pub use mathlib.Core.Path.{◌≡◌, refl, sym, ap, ◌∙◌}
pub use mathlib.Core.Logic.{◌≢◌, ◌↔◌, ◌⊎◌, inl, inr}
pub use mathlib.Core.Bool.{Bool, true, false, ◌&&◌, ◌||◌, not}
pub use mathlib.Core.Option.{Option, none, some, some-injective}
pub use mathlib.Core.List.{List, [], ◌∷◌, ◌++◌, map}
pub use native.Mathlib.Omega.{arith}
