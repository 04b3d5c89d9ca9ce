-- ===== src/Common.antt =====
-- The names that every module uses: the libraries', passed on, and those of the children below.
pub mod Tests
pub mod Lists
pub mod Word
pub mod Outcome
pub mod Int
pub mod Chrono
pub mod Bits
pub mod Currency
pub mod Text
pub mod Decimal
pub use Tests.*
pub use Lists.*
unfoldable pub use Word.{add32, sub32, mul32}
pub use Word.{u32_mod, add32-eq, sub32-eq, mul32-eq, add32-lt, sub32-lt}
pub use Prim.Native.Nat.{ℕ, zero, suc, ◌+◌, ◌-◌, ◌*◌, ◌/◌, ◌%◌, ◌^◌, ◌≤◌, ◌<◌, min}
pub use Prim.Native.String.{String}
pub use mathlib.Core.Path.{◌≡◌, refl, sym, ap, ◌∙◌}
pub use mathlib.Core.Logic.{◌≢◌, ◌↔◌, ◌⊎◌, inl, inr}
pub use mathlib.Core.Bool.{Bool, true, false, not, ◌&&◌, ◌||◌}
pub use mathlib.Core.Option.{Option, none, some}
pub use mathlib.Core.List.{List, [], ◌∷◌, ◌++◌, map}
pub use native.Mathlib.Omega.{arith}
pub use text.Mathlib.Text.{◌==◌ as str_eq}
pub use text.Mathlib.TextEquality.{eq_iff as str_eq_iff}
