-- ===== src/Order/Line/Payment.antt =====
-- Payments of order lines: `OrderLineModel::update_payments` and what else
-- services/order/src/model/order.rs computes from the paid quantity.
pub mod Retry
use e_commerce.Common.{
  ℕ, ◌-◌, ◌≤◌, ◌≡◌, refl, Bool, true, false, Option, none, some, List, [], ◌∷◌, arith, leb, ltb,
  if◌then◌else◌, add32, sub32, u32_mod, All, Option-cases, inl, inr,
}
use e_commerce.Common.Int.{ℤ, pos, negsuc}
use e_commerce.Common.Chrono.{Chrono}
use e_commerce.Common.Outcome.{Outcome, returned, panicked, ◌>>◌, assert}
use e_commerce.Order.Dto.{InventoryEditStockLevelDto}
use e_commerce.Order.Line.{
  OrderLineModel, OrderLineQuantityModel, compare_raw, has_unpaid, store_id, product_id,
}

-- services/common/rust/src/api/rpc/dto.rs
pub record OrderLinePaidUpdateDto : Type 0 where
  pub seller_id : ℕ
  pub product_id : ℕ
  pub attr_set_seq : ℕ
  pub qty : ℕ

pub data OrderLinePayUpdateErrorReason : Type 0 where
  not_exist invalid_quantity omitted : OrderLinePayUpdateErrorReason

pub record OrderLinePayUpdateErrorDto : Type 0 where
  pub seller_id : ℕ
  pub product_id : ℕ
  pub attr_set_seq : ℕ
  pub reason : OrderLinePayUpdateErrorReason

abbrev pub pay_error :
    OrderLinePaidUpdateDto → OrderLinePayUpdateErrorReason → OrderLinePayUpdateErrorDto
pay_error d reason = record {
  seller_id = d.seller_id;
  product_id = d.product_id;
  attr_set_seq = d.attr_set_seq;
  reason = reason;
}

abbrev pub push_pay_error :
    OrderLinePaidUpdateDto
    → Option OrderLinePayUpdateErrorReason
    → List OrderLinePayUpdateErrorDto
    → List OrderLinePayUpdateErrorDto
push_pay_error d none es = es
push_pay_error d (some reason) es = pay_error d reason ∷ es

abbrev pub is_line_of : {T : Type 0} → OrderLinePaidUpdateDto → OrderLineModel T → Bool
is_line_of d m = compare_raw m.id_ (d.seller_id, d.product_id, d.attr_set_seq)

module _ {T : Type 0} ⦃c : Chrono T⦄ where
  -- A payment is not older than the last one that the line has seen.
  abbrev pub is_newer : T → Option T → Bool
  is_newer charge_time none = true
  is_newer charge_time (some old_dt) = c.lt old_dt charge_time

  -- One payment on the quantity of its line.
  unfoldable pub pay_quantity :
      ℕ
      → T
      → OrderLineQuantityModel T
      → OrderLineQuantityModel T × Option OrderLinePayUpdateErrorReason
  pay_quantity n charge_time q =
      let new_paid = add32 q.paid n in
      if leb new_paid q.reserved
      then (if is_newer charge_time q.paid_last_update
          then (record q { paid = new_paid; paid_last_update = some charge_time }, none)
          else (q, some omitted))
      else (q, some invalid_quantity)

  -- The closure of `update_payments`: the lines afterwards, and the error.
  unfoldable pub pay_line :
      T
      → OrderLinePaidUpdateDto
      → List (OrderLineModel T)
      → List (OrderLineModel T) × Option OrderLinePayUpdateErrorReason
  pay_line charge_time d [] = ([], some not_exist)
  pay_line charge_time d (m ∷ ms) =
      let (q, error) = pay_quantity d.qty charge_time m.qty in
      let rest = pay_line charge_time d ms in
      if is_line_of d m then (record m { qty = q } ∷ ms, error) else (m ∷ rest.0, rest.1)

  -- `OrderLineModel::update_payments`
  unfoldable pub update_payments :
      List (OrderLineModel T)
      → List OrderLinePaidUpdateDto
      → T
      → List (OrderLineModel T) × List OrderLinePayUpdateErrorDto
  update_payments ms [] charge_time = (ms, [])
  update_payments ms (d ∷ ds) charge_time =
      let (ms', error) = pay_line charge_time d ms in
      let (ms'', errors) = update_payments ms' ds charge_time in
      (ms'', push_pay_error d error errors)

  -- `OrderLineModel::num_reserved`
  unfoldable pub num_reserved : T → OrderLineModel T → ℕ
  num_reserved time_now m =
      if c.lt time_now m.policy.reserved_until then m.qty.reserved else m.qty.paid

-- `OrderLineModelSet::unpaid_lines`
unfoldable pub unpaid_lines : {T : Type 0} → List (OrderLineModel T) → List (OrderLineModel T)
unpaid_lines [] = []
unpaid_lines (m ∷ ms) = if has_unpaid m.qty then m ∷ unpaid_lines ms else unpaid_lines ms

-- `n as i32` of a `u32`
abbrev pub as_i32 : ℕ → ℤ
as_i32 n = if ltb n 2_147_483_648 then pos n else negsuc (u32_mod - n - 1)

-- The stock that an order line gives back: what it reserved and did not pay.
unfoldable pub stock_to_return :
    {T : Type 0} → OrderLineModel T → Outcome (InventoryEditStockLevelDto T)
stock_to_return m =
    assert (leb m.qty.paid m.qty.reserved)
    >> returned (record {
      qty_add = as_i32 (sub32 m.qty.reserved m.qty.paid);
      store_id = store_id m.id_;
      product_id = product_id m.id_;
      expiry = m.policy.reserved_until;
    })

-- No more is paid than reserved.
abbrev pub IsPayable : {T : Type 0} → OrderLineModel T → Type 0
IsPayable m = m.qty.paid ≤ m.qty.reserved

module _ {T : Type 0} ⦃c : Chrono T⦄ where
  pay_line-IsPayable :
      (t : T) (d : OrderLinePaidUpdateDto) (ms : List (OrderLineModel T))
      → All IsPayable ms
      → All IsPayable (pay_line t d ms).0
  unfolding pay_line pay_quantity
  pay_line-IsPayable t d [] v = tt
  pay_line-IsPayable t d (m ∷ ms) (v, vs) = ground (arith, pay_line-IsPayable t d ms vs)

  -- Whatever payments arrive, lines that are paid for no more than is reserved stay so.
  pub update_payments-IsPayable :
      (ms : List (OrderLineModel T)) (ds : List OrderLinePaidUpdateDto) (t : T)
      → All IsPayable ms
      → All IsPayable (update_payments ms ds t).0
  unfolding update_payments
  update_payments-IsPayable ms [] t v = v
  update_payments-IsPayable ms (d ∷ ds) t v =
      update_payments-IsPayable (pay_line t d ms).0 ds t (pay_line-IsPayable t d ms v)
