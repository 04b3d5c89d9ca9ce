-- ===== src/Order/Currency.antt =====
-- The exchange rates of an order: services/order/src/model/currency.rs, without the check of the
-- range of a rate, over a type `D` of decimals.
use Prim.Native.String.{◌++◌}
use e_commerce.Common.{
  ℕ, Bool, false, ◌||◌, Option, none, some, List, [], ◌∷◌, String, find, is_empty, ◌==◌,
  if◌then◌else◌,
}
use e_commerce.Common.Currency.{CurrencyDto, inr, idr, thb, twd, usd, unknown_currency, currency_eq}
use e_commerce.Common.Decimal.{Decimal}
use e_commerce.Common.Outcome.{Result, ok, err, ok_or, keep_ok}
use e_commerce.Order.Price.{invalid_input, data_corruption, digits}
use e_commerce.Order.Price.Edit.{AppError}
use e_commerce.Payment.OrderReplica.{
  CurrencySnapshotDto, OrderSellerCurrencyDto, OrderCurrencySnapshotDto,
}

-- `ToString for CurrencyDto` of services/common/rust/src/api/dto.rs
abbrev pub currency_text : CurrencyDto → String
currency_text inr = "INR"
currency_text idr = "IDR"
currency_text thb = "THB"
currency_text twd = "TWD"
currency_text usd = "USD"
currency_text unknown_currency = "Unknown"

pub record CurrencyModel (D : Type 0) : Type 0 where
  pub name : CurrencyDto
  pub rate : D

pub record CurrencyModelSet (D : Type 0) : Type 0 where
  pub base : CurrencyDto
  pub exchange_rates : List (CurrencyModel D)

-- The rates of the sellers are a hash map, as its entries.
abbrev pub RateMap : Type 0 → Type 0
RateMap D = List (ℕ × CurrencyModel D)

pub record OrderCurrencyModel (D : Type 0) : Type 0 where
  pub buyer : CurrencyModel D
  pub sellers : RateMap D

-- `e.detail` with a text at its end
abbrev pub add_detail : String → AppError → AppError
add_detail s e = elim e.detail [ none ↦ e | some msg ↦ record e { detail = some (msg ++ s) } ]

abbrev pub concat : {A : Type 0} → List A → List A → List A
concat [] ys = ys
concat (x ∷ xs) ys = x ∷ concat xs ys

abbrev pub missing_rate : CurrencyDto → AppError
missing_rate given = record {
  code = invalid_input;
  detail = some ("fail-load-ex-rate, given:" ++ currency_text given);
}

-- The errors of `OrderCurrencyModel::to_buyer_rate`.
abbrev pub rate_not_found : AppError
rate_not_found = record { code = invalid_input; detail = some "rate-not-found" }

abbrev pub div_zero : ℕ → AppError
div_zero seller_id = record {
  code = data_corruption;
  detail = some ("reason:div0, seller:" ++ digits 10 seller_id);
}

module _ {D : Type 0} where
  -- `HashMap::get`, and `HashMap::insert` of the entries of an iterator
  abbrev pub get_rate : ℕ → RateMap D → Option (CurrencyModel D)
  get_rate k [] = none
  get_rate k ((k', v) ∷ m) = if k == k' then some v else get_rate k m

  abbrev pub put_rate : ℕ → CurrencyModel D → RateMap D → RateMap D
  put_rate k v [] = (k, v) ∷ []
  put_rate k v ((k', v') ∷ m) = if k == k' then (k, v) ∷ m else (k', v') ∷ put_rate k v m

  abbrev pub put_rates : RateMap D → RateMap D → RateMap D
  put_rates m [] = m
  put_rates m ((k, v) ∷ es) = put_rates (put_rate k v m) es

  -- `CurrencyModelSet::find`
  unfoldable pub find_rate : CurrencyModelSet D → CurrencyDto → Result AppError (CurrencyModel D)
  find_rate ms given =
      ok_or (missing_rate given) (find (λ m. currency_eq m.name given) ms.exchange_rates)

  abbrev pub seller_found :
      ℕ → Result AppError (CurrencyModel D) → Result AppError (ℕ × CurrencyModel D)
  seller_found seller_id (ok v) = ok (seller_id, v)
  seller_found seller_id (err e) = err (add_detail (", seller:" ++ digits 10 seller_id) e)

  abbrev pub seller_rate :
      CurrencyModelSet D → ℕ × CurrencyDto → Result AppError (ℕ × CurrencyModel D)
  seller_rate ms (seller_id, label) = seller_found seller_id (find_rate ms label)

  abbrev pub with_buyer_rate :
      CurrencyModelSet D
      → List (ℕ × CurrencyDto)
      → Result AppError (CurrencyModel D)
      → Result (List AppError) (OrderCurrencyModel D)
  with_buyer_rate ms label_sellers (err e) = err (add_detail ", buyer" e ∷ [])
  with_buyer_rate ms label_sellers (ok buyer) =
      let kept = keep_ok (seller_rate ms) label_sellers in
      if is_empty kept.1
      then ok (record { buyer = buyer; sellers = put_rates [] kept.0 })
      else err kept.1

  -- `TryFrom<(CurrencyModelSet, CurrencyDto, Vec<(u32, CurrencyDto)>)> for OrderCurrencyModel`
  unfoldable pub currency_try_from :
      CurrencyModelSet D
      → CurrencyDto
      → List (ℕ × CurrencyDto)
      → Result (List AppError) (OrderCurrencyModel D)
  currency_try_from ms label_buyer label_sellers =
      with_buyer_rate ms label_sellers (find_rate ms label_buyer)

module _ {D : Type 0} ⦃d : Decimal D⦄ where
  -- `From<&CurrencyModel> for CurrencySnapshotDto`
  abbrev pub rate_dto : CurrencyModel D → CurrencySnapshotDto
  rate_dto v = record { name = v.name; rate = d.to_str v.rate }

  abbrev pub seller_dto : ℕ × CurrencyModel D → OrderSellerCurrencyDto
  seller_dto (seller_id, v) = record { seller_id = seller_id; currency = v.name }

  abbrev pub rate_dtos : RateMap D → List CurrencySnapshotDto
  rate_dtos [] = []
  rate_dtos ((k, v) ∷ m) = rate_dto v ∷ rate_dtos m

  abbrev pub seller_dtos : RateMap D → List OrderSellerCurrencyDto
  seller_dtos [] = []
  seller_dtos (e ∷ m) = seller_dto e ∷ seller_dtos m

  abbrev pub any_named : CurrencyDto → RateMap D → Bool
  any_named label [] = false
  any_named label ((k, v) ∷ m) = currency_eq v.name label || any_named label m

  -- `From<OrderCurrencyModel> for OrderCurrencySnapshotDto`
  unfoldable pub snapshot_dto : OrderCurrencyModel D → OrderCurrencySnapshotDto
  snapshot_dto value = record {
    snapshot =
        if any_named value.buyer.name value.sellers
        then rate_dtos value.sellers
        else concat (rate_dtos value.sellers) (rate_dto value.buyer ∷ []);
    sellers = seller_dtos value.sellers;
    buyer = value.buyer.name;
  }

  abbrev pub divided : ℕ → CurrencyDto → Option D → Result AppError (CurrencyModel D)
  divided seller_id name none = err (div_zero seller_id)
  divided seller_id name (some newrate) = ok (record { name = name; rate = newrate })

  abbrev pub rate_of_seller :
      CurrencyModel D → ℕ → Option (CurrencyModel D) → Result AppError (CurrencyModel D)
  rate_of_seller c0 seller_id none = err rate_not_found
  rate_of_seller c0 seller_id (some c1) = divided seller_id c0.name (d.checked_div c0.rate c1.rate)

  -- `OrderCurrencyModel::to_buyer_rate`
  unfoldable pub to_buyer_rate : OrderCurrencyModel D → ℕ → Result AppError (CurrencyModel D)
  to_buyer_rate m seller_id = rate_of_seller m.buyer seller_id (get_rate seller_id m.sellers)
