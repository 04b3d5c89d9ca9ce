-- ===== src/Order/Stock/Store.antt =====
-- The stock of one store: `ProductStockModel` and `StoreStockModel` of
-- services/order/src/model/stock_level.rs. Each scan of the products is a recursion of its own; the
-- test on the remaining number is the early exit of `any`.
pub mod Sums
pub mod Reserve
pub mod Return
pub mod RoundTrip
use e_commerce.Common.{
  ℕ, ◌-◌, ◌≡◌, Bool, true, false, ◌&&◌, Option, none, some, List, [], ◌∷◌, String, min, leb, ltb,
  ◌==◌, if◌then◌else◌, find, modify_first, u32_mod, sub32,
}
use e_commerce.Common.Int.{ℤ, pos, negsuc, ltb_ℤ}
use e_commerce.Common.Chrono.{Chrono}
use e_commerce.Common.Outcome.{Outcome, returned, panicked, ◌>>◌, assert}
use e_commerce.Order.Dto.{
  OrderLineCreateErrorReason, out_of_stock, not_enough_to_claim, InventoryEditStockLevelDto,
  StockReturnErrorReason, invalid_quantity,
}
use e_commerce.Order.Line.{OrderLineModel, product_id}
use e_commerce.Order.Stock.Quantity.{
  StockQtyRsvModel, StockQuantityModel, num_avail, reserve, try_return,
}

module _ (T : Type 0) where
  pub record ProductStockModel : Type 0 where
    pub id_ : ℕ
    pub expiry : T
    pub quantity : StockQuantityModel
    pub is_create : Bool

  pub record StoreStockModel : Type 0 where
    pub store_id : ℕ
    pub products : List ProductStockModel

-- `n as u32` of an `i32`
abbrev pub as_u32 : ℤ → ℕ
as_u32 (pos n) = n
as_u32 (negsuc n) = u32_mod - n - 1

-- What is still to return after one item, in the dry run of `return_across_expiry`.
abbrev pub held_after : ℕ → Option StockQtyRsvModel → ℕ
held_after n none = n
held_after n (some r) = sub32 n (min r.reserved n)

module _ {T : Type 0} where
  -- The dry run of `try_reserve`: the number still required, and the result of `any`.
  unfoldable pub dry_reserve : ℕ → ℕ → List (ProductStockModel T) → ℕ × Bool
  dry_reserve pid n [] = (n, false)
  dry_reserve pid n (p ∷ ps) =
      let left = sub32 n (min (num_avail p.quantity) n) in
      let rest = dry_reserve pid left ps in
      let skip = dry_reserve pid n ps in
      if pid == p.id_ then (if left == 0 then (left, true) else rest) else skip

  -- The second run: the products afterwards, and the number still required.
  unfoldable pub take_stock :
      String → ℕ → ℕ → List (ProductStockModel T) → List (ProductStockModel T) × ℕ
  take_stock oid pid n [] = ([], n)
  take_stock oid pid n (p ∷ ps) =
      let (q, taken) = reserve oid n p.quantity in
      let p' = record p { quantity = q } in
      let left = sub32 n taken in
      let rest = take_stock oid pid left ps in
      let skip = take_stock oid pid n ps in
      if pid == p.id_
      then (if left == 0 then (p' ∷ ps, left) else (p' ∷ rest.0, rest.1))
      else (p ∷ skip.0, skip.1)

  -- `StoreStockModel::try_reserve`; an error comes with the shortage.
  unfoldable pub try_reserve :
      String
      → OrderLineModel T
      → StoreStockModel T
      → Outcome (StoreStockModel T × Option (OrderLineCreateErrorReason × ℕ))
  try_reserve oid req s =
      let wanted = req.qty.reserved in
      let pid = product_id req.id_ in
      let (num_required, satisfied) = dry_reserve pid wanted s.products in
      if num_required == 0
      then (assert satisfied
          >> returned (record s { products = (take_stock oid pid wanted s.products).0 }, none))
      else if ltb num_required wanted
      then returned (s, some (not_enough_to_claim, num_required))
      else returned (s, some (out_of_stock, num_required))

  -- The dry run of `return_across_expiry`.
  unfoldable pub dry_return : ℕ → ℕ → List (ProductStockModel T) → ℕ
  dry_return pid n [] = n
  dry_return pid n (p ∷ ps) =
      let left = held_after n p.quantity.rsv_detail in
      let rest = dry_return pid left ps in
      let skip = dry_return pid n ps in
      if p.id_ == pid then (if left == 0 then left else rest) else skip

  -- Its second run.
  unfoldable pub give_back : ℕ → ℕ → List (ProductStockModel T) → List (ProductStockModel T) × ℕ
  give_back pid n [] = ([], n)
  give_back pid n (p ∷ ps) =
      let (q, returned_qty) = try_return n p.quantity in
      let p' = record p { quantity = q } in
      let left = sub32 n returned_qty in
      let rest = give_back pid left ps in
      let skip = give_back pid n ps in
      if p.id_ == pid
      then (if left == 0 then (p' ∷ ps, left) else (p' ∷ rest.0, rest.1))
      else (p ∷ skip.0, skip.1)

  -- `StoreStockModel::return_across_expiry`
  unfoldable pub return_across_expiry :
      InventoryEditStockLevelDto T
      → StoreStockModel T
      → Outcome (StoreStockModel T × Option StockReturnErrorReason)
  return_across_expiry req s =
      let wanted = as_u32 req.qty_add in
      let num_returning = dry_return req.product_id wanted s.products in
      let (products', left) = give_back req.product_id wanted s.products in
      assert (ltb_ℤ (pos 0) req.qty_add)
      >> (if num_returning == 0
          then (assert (left == 0) >> returned (record s { products = products' }, none))
          else if ltb num_returning wanted
          then returned (s, some invalid_quantity)
          else returned (s, some StockReturnErrorReason.not_exist))

  module _ ⦃c : Chrono T⦄ where
    -- The item that a return by expiry is for.
    abbrev pub is_same_item : InventoryEditStockLevelDto T → ProductStockModel T → Bool
    is_same_item req p =
        p.id_ == req.product_id && c.eq (c.trunc_secs p.expiry) (c.trunc_secs req.expiry)

    abbrev return_from :
        InventoryEditStockLevelDto T
        → StoreStockModel T
        → Option (ProductStockModel T)
        → Outcome (StoreStockModel T × Option StockReturnErrorReason)
    return_from req s none = returned (s, some StockReturnErrorReason.not_exist)
    return_from req s (some p) = elim p.quantity.rsv_detail [
      | none ↦ returned (s, some invalid_quantity)
      | some rsv ↦
          let n = as_u32 req.qty_add in
          let (q, num_returned) = try_return n p.quantity in
          let products' =
            modify_first (is_same_item req) (λ x. record x { quantity = q }) s.products in
          if leb n rsv.reserved
          then (assert (n == num_returned) >> returned (record s { products = products' }, none))
          else returned (s, some invalid_quantity)
    ]

    -- `StoreStockModel::return_by_expiry`
    unfoldable pub return_by_expiry :
        InventoryEditStockLevelDto T
        → StoreStockModel T
        → Outcome (StoreStockModel T × Option StockReturnErrorReason)
    return_by_expiry req s =
        assert (ltb_ℤ (pos 0) req.qty_add) >> return_from req s (find (is_same_item req) s.products)
