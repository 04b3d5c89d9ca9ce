-- ===== src/Payment/Amount.antt =====
-- The amount of an order line: `PayLineAmountModel` of services/payment/src/model/mod.rs.
use mathlib.Core.Option
use e_commerce.Common.{
  ℕ, ◌≤◌, ◌<◌, ◌≡◌, ◌≢◌, Bool, true, false, Option, none, some, String, arith, ltb, if◌then◌else◌,
  Option-cases, inl, inr,
}
use e_commerce.Common.Decimal.{Decimal}

pub record PayAmountDto : Type 0 where
  pub unit : String
  pub total : String

-- `PayLineAmountError`, without the texts that the library prints.
pub data PayLineAmountError : Type 0 where
  overflow : ℕ → PayLineAmountError
  mismatch : PayAmountDto → ℕ → PayLineAmountError
  parse_unit parse_total : String → PayLineAmountError
  precision_unit : String → ℕ → ℕ → PayLineAmountError

pub record PayLineAmountModel (D : Type 0) : Type 0 where
  pub unit : D
  pub total : D
  pub qty : ℕ

pub data AmountResult (A : Type 0) : Type 0 where
  ok : A → AmountResult A
  err : PayLineAmountError → AmountResult A

module _ {D : Type 0} ⦃d : Decimal D⦄ where
  abbrev pub default_amount : PayLineAmountModel D
  default_amount = record { unit = d.zero; total = d.zero; qty = 0 }

  -- `total_amount_eq` on the result of `checked_mul`
  abbrev pub compare_total : PayLineAmountModel D → Option D → AmountResult Bool
  compare_total m none = err (overflow m.qty)
  compare_total m (some actual) = ok (d.eq actual m.total)

  unfoldable pub total_amount_eq : PayLineAmountModel D → AmountResult Bool
  total_amount_eq m = compare_total m (d.checked_mul (d.of_u32 m.qty) m.unit)

  abbrev pub accept_total :
      PayAmountDto → PayLineAmountModel D → AmountResult Bool → AmountResult (PayLineAmountModel D)
  accept_total dto m (err e) = err e
  accept_total dto m (ok false) = err (mismatch dto m.qty)
  accept_total dto m (ok true) = ok m

  abbrev pub with_parsed :
      ℕ → PayAmountDto → ℕ → Option D → Option D → AmountResult (PayLineAmountModel D)
  with_parsed quantity dto fraction_limit none total = err (parse_unit dto.unit)
  with_parsed quantity dto fraction_limit (some unit) none = err (parse_total dto.total)
  with_parsed quantity dto fraction_limit (some unit) (some total) =
      let m : PayLineAmountModel D = record { unit = unit; total = total; qty = quantity } in
      if ltb fraction_limit (d.scale unit)
      then err (precision_unit dto.unit fraction_limit (d.scale unit))
      else accept_total dto m (total_amount_eq m)

  -- `TryFrom<(u32, PayAmountDto, CurrencyDto)>`, given the scale of the currency.
  unfoldable pub try_from : ℕ → PayAmountDto → ℕ → AmountResult (PayLineAmountModel D)
  try_from quantity dto fraction_limit =
      with_parsed quantity dto fraction_limit (d.of_str dto.unit) (d.of_str dto.total)

  -- What an accepted amount is, and what each error tells.
  abbrev pub IsAmountOf : ℕ → PayAmountDto → ℕ → AmountResult (PayLineAmountModel D) → Type 0
  IsAmountOf quantity dto fraction_limit (err (parse_unit s)) =
      (s ≡ dto.unit) × (d.of_str dto.unit ≡ none)
  IsAmountOf quantity dto fraction_limit (err (parse_total s)) =
      (s ≡ dto.total) × (d.of_str dto.total ≡ none)
  IsAmountOf quantity dto fraction_limit (err (precision_unit s limit given)) =
      (limit ≡ fraction_limit)
      × (limit < given)
      × (Option.map d.scale (d.of_str dto.unit) ≡ some given)
  IsAmountOf quantity dto fraction_limit (err (overflow n)) =
      (n ≡ quantity) × (Option.bind (d.of_str dto.unit) (d.checked_mul (d.of_u32 quantity)) ≡ none)
  IsAmountOf quantity dto fraction_limit (err (mismatch dto' n)) =
      (n ≡ quantity) × (dto' ≡ dto) × (d.of_str dto.total ≢ none)
  IsAmountOf quantity dto fraction_limit (ok m) =
      (m.qty ≡ quantity)
      × (d.of_str dto.unit ≡ some m.unit)
      × (d.of_str dto.total ≡ some m.total)
      × (d.scale m.unit ≤ fraction_limit)
      × (Option.map (λ t. d.eq t m.total) (d.checked_mul (d.of_u32 quantity) m.unit) ≡ some true)

module _ (D : Type 0) ⦃d : Decimal D⦄ where
  -- An amount that is accepted is the one that was read, at the given quantity, with a unit price
  -- of no more decimal places than the currency has and a total that compares equal to quantity
  -- times unit. Each error tells what was wrong: an unreadable price or total, too many places, a
  -- product out of range, or a mismatch.
  pub try_from-IsAmountOf :
      (quantity : ℕ) (dto : PayAmountDto) (fraction_limit : ℕ)
      → IsAmountOf {D = D} quantity dto fraction_limit (try_from quantity dto fraction_limit)
  unfolding try_from total_amount_eq Option.bind
  try_from-IsAmountOf quantity dto fraction_limit = elim (Option-cases (d.of_str dto.unit)) [
    | inl no_unit ↦ ground arith
    | inr (u, unit) ↦ elim (Option-cases (d.of_str dto.total)) [
      | inl no_total ↦ ground arith
      | inr (t, total) ↦ elim (Option-cases (d.checked_mul (d.of_u32 quantity) u)) [
        | inl over ↦ ground arith
        | inr (p, product) ↦ ground arith
      ]
    ]
  ]
