-- ===== src/Order/Price/Edit.antt =====
-- Edits of one price: `TryFrom<&ProdAttrPriceSetDto>`, `TryFrom<&ProductPriceEditDto>` and
-- `ProductPriceModel::update` of services/order/src/model/product_price.rs.
pub mod Charges
pub mod Prices
pub mod Set
pub mod Turns
use Prim.Native.String.{◌++◌}
use e_commerce.Common.{ℕ, true, Option, none, some, List, [], ◌∷◌, String, if◌then◌else◌}
use e_commerce.Common.Int.{ℤ}
use e_commerce.Common.Outcome.{Result, ok, err}
use e_commerce.Order.Line.{ProdAttrPricingMap, ProdAttriPriceModel}
use e_commerce.Order.Price.{
  AppErrorCode, invalid_input, ProdAttrValueDto, ProductPriceModel, map_key, insert,
}
use e_commerce.Order.Price.Find.{has_key}

-- services/order/src/api/rpc/dto.rs
pub record ProductAttrPriceDto : Type 0 where
  pub label_id : String
  pub value : ProdAttrValueDto
  pub price : ℤ

pub record ProdAttrPriceSetDto (T : Type 0) : Type 0 where
  pub extra_charge : List ProductAttrPriceDto
  pub last_update : T

pub record ProductPriceEditDto (T : Type 0) : Type 0 where
  pub price : ℕ
  pub start_after : T
  pub end_before : T
  pub product_id : ℕ
  pub attributes : ProdAttrPriceSetDto T

-- services/order/src/error.rs
pub record AppError : Type 0 where
  pub code : AppErrorCode
  pub detail : Option String

abbrev pub key_of : ProductAttrPriceDto → String
key_of i = map_key (record { label_id = i.label_id; value = i.value })

abbrev pub dup_attrval : String → AppError
dup_attrval k = record { code = invalid_input; detail = some ("prod-price-dup-attrval: " ++ k) }

-- the loop over the items, on the map so far
unfoldable pub charge_map :
    List ProductAttrPriceDto → List (String × ℤ) → Result AppError (List (String × ℤ))
charge_map [] vm = ok vm
charge_map (i ∷ is) vm =
    let rest = charge_map is (insert (key_of i) i.price vm) in
    if has_key (key_of i) vm then err (dup_attrval (key_of i)) else rest

abbrev pub some_map : Result AppError (List (String × ℤ)) → Result AppError ProdAttrPricingMap
some_map (ok vm) = ok (some vm)
some_map (err e) = err e

abbrev pub pricing_of : List ProductAttrPriceDto → Result AppError ProdAttrPricingMap
pricing_of [] = ok none
pricing_of (i ∷ is) = some_map (charge_map (i ∷ is) [])

module _ {T : Type 0} where
  abbrev pub with_pricing :
      T → Result AppError ProdAttrPricingMap → Result AppError (ProdAttriPriceModel T)
  with_pricing t (ok pricing) = ok (record { pricing = pricing; last_update = t })
  with_pricing t (err e) = err e

  -- `ProdAttriPriceModel::try_from`
  unfoldable pub attrs_try_from : ProdAttrPriceSetDto T → Result AppError (ProdAttriPriceModel T)
  attrs_try_from d = with_pricing d.last_update (pricing_of d.extra_charge)

  abbrev pub new_price :
      ProductPriceEditDto T
      → Result AppError (ProdAttriPriceModel T)
      → Result AppError (ProductPriceModel T)
  new_price d (err e) = err e
  new_price d (ok attributes) = ok (record {
    price = d.price;
    start_after = d.start_after;
    end_before = d.end_before;
    product_id = d.product_id;
    attributes = attributes;
    is_create = true;
  })

  -- `ProductPriceModel::try_from`
  unfoldable pub price_try_from : ProductPriceEditDto T → Result AppError (ProductPriceModel T)
  price_try_from d = new_price d (attrs_try_from d.attributes)

  abbrev pub with_attributes :
      ProductPriceModel T
      → Result AppError (ProdAttriPriceModel T)
      → ProductPriceModel T × Option AppError
  with_attributes m (ok attributes) = (record m { attributes = attributes }, none)
  with_attributes m (err e) = (m, some e)

  -- `ProductPriceModel::update`
  unfoldable pub update_price :
      ProductPriceEditDto T → ProductPriceModel T → ProductPriceModel T × Option AppError
  update_price d m =
      with_attributes
        (record m { price = d.price; end_before = d.end_before; start_after = d.start_after })
        (attrs_try_from d.attributes)
