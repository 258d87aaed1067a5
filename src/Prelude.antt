-- ===== src/Prelude.antt =====
-- Shared vocabulary of the development: the library's names passed on, Boolean tests on numbers,
-- lists under native indices, texts as lists of code points, results, and ordered maps.
mod Tests
mod Lists
mod Texts
pub mod Slices
pub mod Splits
pub mod Decimal
pub mod Printed
pub mod Utf8
mod Results
pub mod OrdMap
pub mod Order
pub mod Word
pub mod Duration
pub mod Int
pub use Tests.*
pub use Lists.*
unfoldable pub use Texts.*
pub use Results.*
pub use Prim.Native.Nat.{ℕ, zero, suc, ◌+◌, ◌-◌, ◌*◌, ◌/◌, ◌%◌, ◌^◌, ◌≤◌, ◌<◌, min, max}
pub use mathlib.Core.Path.{◌≡◌, refl, sym, ap, ◌∙◌}
pub use mathlib.Core.Logic.{◌≢◌, ◌↔◌, ◌⊎◌, inl, inr}
pub use mathlib.Core.Bool.{Bool, true, false, not, ◌&&◌, ◌||◌}
pub use mathlib.Core.Option.{Option, none, some}
pub use mathlib.Core.List.{List, [], ◌∷◌, ◌++◌, map, Memᴰ}
pub use native.Mathlib.Omega.{arith}
