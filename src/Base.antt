-- ===== src/Base.antt =====
-- Names that all modules share: those of the libraries, passed on, and the shared helpers of the
-- children (tests on numbers, lists over the native numbers, results with errors and panics,
-- machine words, powers of two, bit operations). No part of the program is modelled here.
mod Tests
mod Lists
mod Outcome
mod Words
mod Bytes
pub mod Powers
pub mod Bits
pub mod Order
pub use Tests.*
pub use Lists.*
pub use Outcome.*
pub use Words.*
unfoldable pub use Bytes.*
pub use Prim.Native.Nat.{ℕ, zero, suc, ◌+◌, ◌-◌, ◌*◌, ◌/◌, ◌%◌, ◌^◌, ◌≤◌, ◌<◌, min, max}
pub use mathlib.Core.Path.{◌≡◌, refl, sym, ap, ◌∙◌, subst}
pub use mathlib.Core.Logic.{◌≢◌, ◌↔◌, ◌⊎◌, inl, inr}
pub use mathlib.Core.Bool.{Bool, true, false, not, ◌&&◌, ◌||◌}
pub use mathlib.Core.Option.{Option, none, some}
pub use mathlib.Core.List.{List, [], ◌∷◌, ◌++◌, map}
pub use native.Mathlib.Omega.{arith}
