-- ===== src/Base.antt =====
-- What every module shares: the library's names passed on, Boolean tests and the conditional,
-- equality tests, lists, dicts, text, and the monad of code that mutates an object and may raise.
mod Tests
mod Equality
mod Lists
mod Dicts
mod Strings
mod Effects
pub mod Invariants
pub use Prim.Native.Nat.{ℕ, zero, suc, ◌+◌, ◌-◌, ◌≤◌, ◌<◌}
pub use mathlib.Core.Path.{◌≡◌, refl, sym, ap, ◌∙◌}
pub use mathlib.Core.Logic.{◌≢◌, ◌↔◌, ◌⊎◌, inl, inr}
pub use mathlib.Core.Bool.{Bool, true, false, not, ◌&&◌, ◌||◌}
pub use mathlib.Core.Option.{Option, none, some}
pub use mathlib.Core.List.{List, [], ◌∷◌, ◌++◌, map, reverse}
pub use native.Mathlib.Omega.{arith}
pub use Tests.*
unfoldable pub use Equality.*
unfoldable pub use Lists.*
unfoldable pub use Strings.*
unfoldable pub use Effects.*
unfoldable pub use Dicts.*
