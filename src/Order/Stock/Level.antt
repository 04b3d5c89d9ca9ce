-- ===== src/Order/Stock/Level.antt =====
-- The stock of all stores: `StockLevelModelSet` of services/order/src/model/stock_level.rs.
pub mod Update
pub mod Sort
pub mod Reserve
pub mod Return
use e_commerce.Common.{
  ℕ, suc, ◌+◌, ◌-◌, Bool, true, false, ◌&&◌, Option, none, some, List, [], ◌∷◌, map, String, min,
  ◌==◌, if◌then◌else◌, add32, sub32,
}
use mathlib.Core.Option
use e_commerce.Common.Int.{ℤ, pos, negsuc}
use e_commerce.Common.Chrono.{Chrono}
use e_commerce.Common.Outcome.{Outcome, returned, panicked, ◌>>=◌}
use e_commerce.Order.Dto.{
  OrderLineCreateErrorReason, OrderLineCreateErrorDto, OrderLineCreateErrNonExistDto,
  InventoryEditStockLevelDto, StockReturnErrorReason, StockReturnErrorDto,
}
use e_commerce.Order.Line.{OrderLineModel, store_id, product_id}
use e_commerce.Order.Stock.Quantity.{StockQuantityModel}
use e_commerce.Order.Stock.Store.{ProductStockModel, StoreStockModel}
use e_commerce.Order.Stock.Store

-- One edit of a quantity in `StockLevelModelSet::update`.
unfoldable pub adjust : ℤ → StockQuantityModel → StockQuantityModel
adjust (pos n) q = record q { total = add32 q.total n }
adjust (negsuc n) q = record q {
  cancelled = add32 q.cancelled (min (sub32 q.total q.cancelled) (suc n));
}

-- A product that is new to the store; `none` is "negative-initial-quantity".
abbrev pub initial : ℤ → Option StockQuantityModel
initial (pos n) = some (record { total = n; cancelled = 0; booked = 0; rsv_detail = none })
initial (negsuc n) = none

abbrev is_zero : ℤ → Bool
is_zero (pos n) = n == 0
is_zero (negsuc n) = false

module _ {T : Type 0} ⦃c : Chrono T⦄ where
  -- The item that an edit is for: of the same product, less than a second away.
  abbrev pub is_edited : InventoryEditStockLevelDto T → ProductStockModel T → Bool
  is_edited d m = m.id_ == d.product_id && is_zero (c.secs_between m.expiry d.expiry)

  unfoldable pub update_products :
      InventoryEditStockLevelDto T
      → List (ProductStockModel T)
      → Option (List (ProductStockModel T))
  update_products d [] =
      Option.map
        (λ q. record { id_ = d.product_id; expiry = d.expiry; quantity = q; is_create = true } ∷ [])
        (initial d.qty_add)
  update_products d (p ∷ ps) =
      if is_edited d p
      then some (record p { quantity = adjust d.qty_add p.quantity } ∷ ps)
      else Option.map (◌∷◌ p) (update_products d ps)

  -- The closure of `update` on one edit; a store that is not there is added at the end.
  unfoldable pub update_stores :
      InventoryEditStockLevelDto T → List (StoreStockModel T) → Option (List (StoreStockModel T))
  update_stores d [] =
      Option.map (λ ps. record { store_id = d.store_id; products = ps } ∷ []) (update_products d [])
  update_stores d (s ∷ ss) =
      if s.store_id == d.store_id
      then Option.map (λ ps. record s { products = ps } ∷ ss) (update_products d s.products)
      else Option.map (◌∷◌ s) (update_stores d ss)

  -- `StockLevelModelSet::update`; `none` is the error `InvalidInput`.
  unfoldable pub update :
      List (InventoryEditStockLevelDto T)
      → List (StoreStockModel T)
      → Option (List (StoreStockModel T))
  update [] ss = some ss
  update (d ∷ ds) ss = Option.bind (update_stores d ss) (update ds)

  -- `sort_by` of the standard library, which is stable: an item goes before those that are equal.
  abbrev insert_by :
      (ProductStockModel T → ProductStockModel T → Bool)
      → ProductStockModel T
      → List (ProductStockModel T)
      → List (ProductStockModel T)
  insert_by le p [] = p ∷ []
  insert_by le p (x ∷ xs) = if le p x then p ∷ x ∷ xs else x ∷ insert_by le p xs

  unfoldable pub sort_by :
      (ProductStockModel T → ProductStockModel T → Bool)
      → List (ProductStockModel T)
      → List (ProductStockModel T)
  sort_by le [] = []
  sort_by le (p ∷ ps) = insert_by le p (sort_by le ps)

  -- The comparison of `sort_by_expiry`.
  abbrev pub expires_before : Bool → ProductStockModel T → ProductStockModel T → Bool
  expires_before true a b = c.le a.expiry b.expiry
  expires_before false a b = c.le b.expiry a.expiry

  abbrev pub sort_products : Bool → StoreStockModel T → StoreStockModel T
  sort_products ascending s = record s { products = sort_by (expires_before ascending) s.products }

  unfoldable pub sort_by_expiry : Bool → List (StoreStockModel T) → List (StoreStockModel T)
  sort_by_expiry ascending = map (sort_products ascending)

abbrev pub push_error {ℓ} : {E : Type ℓ} → Option E → List E → List E
push_error none es = es
push_error (some e) es = e ∷ es

-- A loop over requests that runs each on the first store with its id and collects the errors.
module _ {T : Type 0} {E : Type 0} where
  -- `iter_mut().find(|m| m.store_id == id)`, then `run` on what was found, or `missing`.
  unfoldable pub on_store :
      ℕ
      → (StoreStockModel T → Outcome (StoreStockModel T × Option E))
      → E
      → List (StoreStockModel T)
      → Outcome (List (StoreStockModel T) × Option E)
  on_store id run missing [] = returned ([], some missing)
  on_store id run missing (s ∷ ss) =
      if id == s.store_id
      then (run s >>= λ r. returned (r.0 ∷ ss, r.1))
      else (on_store id run missing ss >>= λ r. returned (s ∷ r.0, r.1))

  -- `into_iter().filter_map(…).collect()`
  unfoldable pub for_each {ℓ} :
      {A : Type ℓ}
      → (A → List (StoreStockModel T) → Outcome (List (StoreStockModel T) × Option E))
      → List A
      → List (StoreStockModel T)
      → Outcome (List (StoreStockModel T) × List E)
  for_each step [] ss = returned (ss, [])
  for_each step (a ∷ rest_of) ss = step a ss >>= λ r.
      for_each step rest_of r.0 >>= λ rest. returned (rest.0, push_error r.1 rest.1)

-- The error of an order line, as `try_reserve` makes it.
abbrev line_error :
    {T : Type 0}
    → OrderLineModel T
    → OrderLineCreateErrorReason
    → Option OrderLineCreateErrNonExistDto
    → Option ℕ
    → OrderLineCreateErrorDto
line_error req reason nonexist shortage = record {
  seller_id = store_id req.id_;
  product_id = product_id req.id_;
  reason = reason;
  nonexist = nonexist;
  shortage = shortage;
  attr_vals = none;
  rsv_limit = none;
}

abbrev no_seller : OrderLineCreateErrNonExistDto
no_seller = record { product_policy = false; product_price = false; stock_seller = true }

abbrev return_error :
    {T : Type 0} → InventoryEditStockLevelDto T → StockReturnErrorReason → StockReturnErrorDto
return_error req reason = record {
  seller_id = req.store_id;
  product_id = req.product_id;
  reason = reason;
}

module _ {T : Type 0} where
  abbrev with_line_error :
      OrderLineModel T
      → StoreStockModel T × Option (OrderLineCreateErrorReason × ℕ)
      → StoreStockModel T × Option OrderLineCreateErrorDto
  with_line_error req (s, none) = (s, none)
  with_line_error req (s, some (reason, shortage)) =
      (s, some (line_error req reason none (some shortage)))

  -- The closure of `StockLevelModelSet::try_reserve` on one order line.
  unfoldable pub reserve_line :
      String
      → OrderLineModel T
      → List (StoreStockModel T)
      → Outcome (List (StoreStockModel T) × Option OrderLineCreateErrorDto)
  reserve_line oid req =
      on_store (store_id req.id_)
        (λ s. Store.try_reserve oid req s >>= λ r. returned (with_line_error req r))
        (line_error req OrderLineCreateErrorReason.not_exist (some no_seller) none)

  abbrev with_return_error :
      InventoryEditStockLevelDto T
      → StoreStockModel T × Option StockReturnErrorReason
      → StoreStockModel T × Option StockReturnErrorDto
  with_return_error req (s, none) = (s, none)
  with_return_error req (s, some reason) = (s, some (return_error req reason))

  -- `StockLevelModelSet::return_common`
  unfoldable pub return_common :
      (InventoryEditStockLevelDto T
        → StoreStockModel T
        → Outcome (StoreStockModel T × Option StockReturnErrorReason))
      → List (InventoryEditStockLevelDto T)
      → List (StoreStockModel T)
      → Outcome (List (StoreStockModel T) × List StockReturnErrorDto)
  return_common store_fn = for_each λ req.
      on_store req.store_id (λ s. store_fn req s >>= λ r. returned (with_return_error req r))
        (return_error req StockReturnErrorReason.not_exist)

module _ {T : Type 0} ⦃c : Chrono T⦄ where
  -- `StockLevelModelSet::try_reserve`, on the id and the lines of an order.
  unfoldable pub try_reserve :
      String
      → List (OrderLineModel T)
      → List (StoreStockModel T)
      → Outcome (List (StoreStockModel T) × List OrderLineCreateErrorDto)
  try_reserve oid lines ss = for_each (reserve_line oid) lines (sort_by_expiry true ss)

  -- `StockLevelModelSet::return_across_expiry`
  unfoldable pub return_across_expiry :
      List (InventoryEditStockLevelDto T)
      → List (StoreStockModel T)
      → Outcome (List (StoreStockModel T) × List StockReturnErrorDto)
  return_across_expiry items ss =
      return_common Store.return_across_expiry items (sort_by_expiry false ss)

  -- `StockLevelModelSet::return_by_expiry`
  unfoldable pub return_by_expiry :
      List (InventoryEditStockLevelDto T)
      → List (StoreStockModel T)
      → Outcome (List (StoreStockModel T) × List StockReturnErrorDto)
  return_by_expiry = return_common Store.return_by_expiry
