-- ===== src/Order/Price/Edit/Set.antt =====
-- Edits of the prices of a store: `ProductPriceModelSet::update` of
-- services/order/src/model/product_price.rs.
use e_commerce.Common.{
  ℕ, suc, Bool, ◌&&◌, not, Option, none, some, List, [], ◌∷◌, ◌++◌, length, ◌==◌, if◌then◌else◌,
}
use e_commerce.Common.Currency.{CurrencyDto}
use e_commerce.Common.Outcome.{Result, ok, err}
use e_commerce.Order.Price.{invalid_input, ProductPriceModel}
use e_commerce.Order.Price.Find.{ProductPriceModelSet}
use e_commerce.Order.Price.Edit.{ProductPriceEditDto, AppError, price_try_from, update_price}

-- What `filter_map` makes of an item: it is not there, it is edited, or its edit has an error.
pub data Edit : Type 0 where
  missing edited : Edit
  failed : AppError → Edit

abbrev pub edit_of : Option AppError → Edit
edit_of none = edited
edit_of (some e) = failed e

pub record Edited (T : Type 0) : Type 0 where
  pub items : List (ProductPriceModel T)
  pub es : List AppError
  pub num_updated : ℕ

pub record Created (T : Type 0) : Type 0 where
  pub new_items : List (ProductPriceModel T)
  pub es : List AppError

abbrev pub nonexist_obj : AppError
nonexist_obj = record { code = invalid_input; detail = some "updating-data-to-nonexist-obj" }

module _ {T : Type 0} where
  abbrev pub is_saved : ℕ → ProductPriceModel T → Bool
  is_saved pid m = m.product_id == pid && not m.is_create

  -- `iter_mut().find(..)`, with the update of the price that is found
  abbrev pub edit_first :
      ProductPriceEditDto T → List (ProductPriceModel T) → List (ProductPriceModel T) × Edit
  edit_first d [] = ([], missing)
  edit_first d (m ∷ ms) =
      let rest = edit_first d ms in
      if is_saved d.product_id m
      then (((update_price d m).0) ∷ ms, edit_of (update_price d m).1)
      else (m ∷ rest.0, rest.1)

  abbrev pub push_edit : Edit → List AppError → ℕ → List (ProductPriceModel T) → Edited T
  push_edit missing es n ms = record { items = ms; es = es; num_updated = n }
  push_edit edited es n ms = record { items = ms; es = es; num_updated = suc n }
  push_edit (failed e) es n ms = record { items = ms; es = e ∷ es; num_updated = n }

  -- the updates in turn
  abbrev pub edit_all : List (ProductPriceEditDto T) → List (ProductPriceModel T) → Edited T
  edit_all [] ms = record { items = ms; es = []; num_updated = 0 }
  edit_all (d ∷ ds) ms =
      let r = edit_first d ms in
      let rest = edit_all ds r.0 in push_edit r.1 rest.es rest.num_updated rest.items

  abbrev pub push_created : Result AppError (ProductPriceModel T) → Created T → Created T
  push_created (ok m) r = record r { new_items = m ∷ r.new_items }
  push_created (err e) r = record r { es = e ∷ r.es }

  abbrev pub create_all : List (ProductPriceEditDto T) → Created T
  create_all [] = record { new_items = []; es = [] }
  create_all (d ∷ ds) = let rest = create_all ds in push_created (price_try_from d) rest

  abbrev pub settle_errors :
      ProductPriceModelSet T → List AppError → Result AppError (ProductPriceModelSet T)
  settle_errors ms [] = ok ms
  settle_errors ms (e ∷ es) = err e

  -- `ProductPriceModelSet::update`
  unfoldable pub update :
      ProductPriceModelSet T
      → List (ProductPriceEditDto T)
      → List (ProductPriceEditDto T)
      → CurrencyDto
      → Result AppError (ProductPriceModelSet T)
  update ms updating creating new_currency =
      let u = edit_all updating ms.items in
      let c = create_all creating in
      if u.num_updated == length updating
      then settle_errors
          (record {
            store_id = ms.store_id;
            currency = new_currency;
            items = u.items ++ c.new_items;
          })
          (u.es ++ c.es)
      else err nonexist_obj
