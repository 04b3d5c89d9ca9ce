-- ===== src/Common/Currency.antt =====
-- The currencies of the services: `CurrencyDto` of services/common/rust/src/api/dto.rs.
use Prim.Native.Nat.{ℕ}
use mathlib.Core.Bool.{Bool}
use e_commerce.Common.Tests.{◌==◌}

pub data CurrencyDto : Type 0 where
  inr idr thb twd usd unknown_currency : CurrencyDto

abbrev currency_code : CurrencyDto → ℕ
currency_code inr = 0
currency_code idr = 1
currency_code thb = 2
currency_code twd = 3
currency_code usd = 4
currency_code unknown_currency = 5

-- `PartialEq` of `CurrencyDto`
unfoldable pub currency_eq : CurrencyDto → CurrencyDto → Bool
currency_eq a b = currency_code a == currency_code b

unfoldable pub amount_fraction_scale : CurrencyDto → ℕ
amount_fraction_scale unknown_currency = 0
amount_fraction_scale _ = 2
