-- ===== src/Common/Decimal.antt =====
-- What the services use of `rust_decimal::Decimal`, a library that is not in the
-- repository, as operations on a type `D`.
use Prim.Native.Nat.{ℕ, ◌≤◌}
use Prim.Native.String.{String}
use mathlib.Core.Path.{◌≡◌}
use mathlib.Core.Bool.{Bool}
use mathlib.Core.Option.{Option, some}
use e_commerce.Common.Tests.{if◌then◌else◌}

pub record Decimal {ℓ} (D : Type ℓ) : Type ℓ where
  pub zero : D
  -- `Decimal::new(n as i64, 0)`
  pub of_u32 : ℕ → D
  -- `Decimal::from_str`, without the text of its error
  pub of_str : String → Option D
  -- `to_string`
  pub to_str : D → String
  -- the operators, where the result fits a decimal; the library panics where it does not
  pub add : D → D → D
  pub sub : D → D → D
  pub mul : D → D → D
  pub saturating_sub : D → D → D
  pub checked_sub : D → D → Option D
  pub checked_mul : D → D → Option D
  -- `a <= b` and `a == b`
  pub le : D → D → Bool
  pub eq : D → D → Bool
  pub is_sign_negative : D → Bool
  pub scale : D → ℕ
  -- `checked_div` and `trunc_with_scale`
  pub checked_div : D → D → Option D
  pub trunc_with_scale : D → ℕ → D

-- A decimal is read as it was printed, and is cut to no more places than is asked.
pub record IsDecimal {ℓ} (D : Type ℓ) ⦃d : Decimal D⦄ : Type ℓ where
  pub of_str-to_str : (a : D) → d.of_str (d.to_str a) ≡ some a
  pub scale-trunc : (a : D) (n : ℕ) → d.scale (d.trunc_with_scale a n) ≤ n

-- `std::cmp::min`
abbrev pub decimal_min {ℓ} : {D : Type ℓ} ⦃d : Decimal D⦄ → D → D → D
decimal_min ⦃d⦄ a b = if d.le a b then a else b
