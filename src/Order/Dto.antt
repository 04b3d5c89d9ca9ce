-- ===== src/Order/Dto.antt =====
-- Requests and errors that the modules of the order service exchange:
-- services/order/src/api/web/dto.rs and services/order/src/api/rpc/dto.rs.
use e_commerce.Common.{ℕ, Bool, Option, List, String}
use e_commerce.Common.Int.{ℤ}

pub data OrderLineCreateErrorReason : Type 0 where
  not_exist out_of_stock not_enough_to_claim duplicate_lines rsv_limit_violation :
      OrderLineCreateErrorReason

pub record OrderLineCreateErrNonExistDto : Type 0 where
  pub product_policy : Bool
  pub product_price : Bool
  pub stock_seller : Bool

pub record GenericRangeErrorDto : Type 0 where
  pub max_ : ℕ
  pub min_ : ℕ
  pub given : ℕ

pub record OrderLineCreateErrorDto : Type 0 where
  pub seller_id : ℕ
  pub product_id : ℕ
  pub reason : OrderLineCreateErrorReason
  pub nonexist : Option OrderLineCreateErrNonExistDto
  pub shortage : Option ℕ
  pub attr_vals : Option (List String)
  pub rsv_limit : Option GenericRangeErrorDto

-- A positive `qty_add` adds to the stock or returns to it, a negative one cancels.
pub record InventoryEditStockLevelDto (T : Type 0) : Type 0 where
  pub qty_add : ℤ
  pub store_id : ℕ
  pub product_id : ℕ
  pub expiry : T

pub data StockReturnErrorReason : Type 0 where
  not_exist invalid_quantity : StockReturnErrorReason

pub record StockReturnErrorDto : Type 0 where
  pub seller_id : ℕ
  pub product_id : ℕ
  pub reason : StockReturnErrorReason
