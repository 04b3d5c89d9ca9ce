-- ===== src/Order/Return.antt =====
-- Return requests of customers: `OrderReturnModel` of services/order/src/model/order.rs.
pub mod Records
pub mod Limits
pub mod Repeat
use e_commerce.Common.{
  ℕ, ◌≡◌, Bool, true, false, not, ◌&&◌, ◌||◌, Option, none, some, List, [], ◌∷◌, ◌++◌, map, ltb,
  ◌==◌, if◌then◌else◌, find, is_empty, add32, mul32,
}
use e_commerce.Common.Chrono.{Chrono}
use e_commerce.Common.Outcome.{Outcome, returned, panicked, ◌>>=◌}
use e_commerce.Order.Line.{
  OrderLineModel, OrderLineIdentity, OrderLinePriceModel, compare_raw, id_eq,
}
use e_commerce.Order.Line.Payment.{num_reserved}

-- services/order/src/api/web/dto.rs
pub record OrderLineReturnReqDto : Type 0 where
  pub seller_id : ℕ
  pub product_id : ℕ
  pub attr_set_seq : ℕ
  pub quantity : ℕ

pub data OrderLineReturnErrorReason : Type 0 where
  not_exist warranty_expired qty_limit_exceed duplicate_return : OrderLineReturnErrorReason

pub record OrderLineReturnErrorDto : Type 0 where
  pub seller_id : ℕ
  pub product_id : ℕ
  pub attr_set_seq : ℕ
  pub reason : OrderLineReturnErrorReason

-- A return at some time: the number of items, and the refund.
abbrev pub ReturnEntry : Type 0 → Type 0
ReturnEntry T = T × ℕ × OrderLinePriceModel

-- The hash map of a return as its entries, in the order of the iteration.
pub record OrderReturnModel (T : Type 0) : Type 0 where
  pub id_ : OrderLineIdentity
  pub qty : List (ReturnEntry T)

abbrev pub id_combo : OrderLineReturnReqDto → ℕ × ℕ × ℕ
id_combo d = (d.seller_id, d.product_id, d.attr_set_seq)

-- `OrderLineIdentity::from((u32, u64, u16))`
abbrev pub identity_of : ℕ × ℕ × ℕ → OrderLineIdentity
identity_of (store, prod, seq) = record {
  base = record { store_id = store; product_id = prod };
  attr_set_req = seq;
}

-- The sum on `u32` of the entries' numbers.
unfoldable pub sum_entries : {T : Type 0} → ℕ → List (ReturnEntry T) → ℕ
sum_entries acc [] = acc
sum_entries acc ((t, n, refund) ∷ es) = sum_entries (add32 acc n) es

unfoldable pub num_returned : {T : Type 0} → OrderReturnModel T → ℕ
num_returned r = sum_entries 0 r.qty

abbrev pub return_error :
    OrderLineReturnReqDto → OrderLineReturnErrorReason → OrderLineReturnErrorDto
return_error d reason = record {
  seller_id = d.seller_id;
  product_id = d.product_id;
  attr_set_seq = d.attr_set_seq;
  reason = reason;
}

abbrev pub push_reason :
    OrderLineReturnReqDto
    → Option OrderLineReturnErrorReason
    → List OrderLineReturnErrorDto
    → List OrderLineReturnErrorDto
push_reason d none es = es
push_reason d (some reason) es = return_error d reason ∷ es

module _ {T : Type 0} where
  abbrev pub is_line : OrderLineReturnReqDto → OrderLineModel T → Bool
  is_line d m = compare_raw m.id_ (id_combo d)

  abbrev pub is_return : OrderLineReturnReqDto → OrderReturnModel T → Bool
  is_return d r = compare_raw r.id_ (id_combo d)

  abbrev pub already_returned : Option (OrderReturnModel T) → ℕ
  already_returned none = 0
  already_returned (some r) = num_returned r

module _ {T : Type 0} ⦃c : Chrono T⦄ where
  -- `contains_key`
  abbrev pub has_time : T → List (ReturnEntry T) → Bool
  has_time t [] = false
  has_time t ((u, n, refund) ∷ es) = c.eq u t || has_time t es

  abbrev pub returned_at : T → Option (OrderReturnModel T) → Bool
  returned_at t none = false
  returned_at t (some r) = has_time t r.qty

  -- The checks of one request, for its order line and the saved return of that line.
  unfoldable pub check_line :
      T
      → OrderLineReturnReqDto
      → OrderLineModel T
      → Option (OrderReturnModel T)
      → Option OrderLineReturnErrorReason
  check_line time_now d oline saved =
      if c.lt time_now oline.policy.warranty_until
      then (if ltb (num_reserved time_now oline) (add32 (already_returned saved) d.quantity)
          then some qty_limit_exceed
          else if returned_at time_now saved
          then some duplicate_return
          else none)
      else some warranty_expired

  abbrev pub check_found :
      T
      → OrderLineReturnReqDto
      → List (OrderReturnModel T)
      → Option (OrderLineModel T)
      → Option OrderLineReturnErrorReason
  check_found time_now d o_returns none = some not_exist
  check_found time_now d o_returns (some oline) =
      check_line time_now d oline (find (λ r. id_eq r.id_ oline.id_) o_returns)

  -- The first loop of `filter_requests`, for one request.
  unfoldable pub check_request :
      T
      → List (OrderLineModel T)
      → List (OrderReturnModel T)
      → OrderLineReturnReqDto
      → Option OrderLineReturnErrorReason
  check_request time_now o_lines o_returns d =
      check_found time_now d o_returns (find (is_line d) o_lines)

  unfoldable pub check_requests :
      T
      → List (OrderLineModel T)
      → List (OrderReturnModel T)
      → List OrderLineReturnReqDto
      → List OrderLineReturnErrorDto
  check_requests time_now o_lines o_returns [] = []
  check_requests time_now o_lines o_returns (d ∷ ds) =
      push_reason d (check_request time_now o_lines o_returns d)
        (check_requests time_now o_lines o_returns ds)

module _ {T : Type 0} where
  -- The entry that a request adds: its number, and the refund at the price of the line.
  unfoldable pub new_entry : T → OrderLineReturnReqDto → OrderLineModel T → ReturnEntry T
  new_entry time_now d oline = (
    time_now,
    d.quantity,
    record { unit = oline.price.unit; total = mul32 oline.price.unit d.quantity },
  )

  -- On the saved returns: the return of the line, if there is one, with the new entry alone.
  abbrev pub replace_entries :
      OrderLineReturnReqDto
      → ReturnEntry T
      → List (OrderReturnModel T)
      → List (OrderReturnModel T) × Option (OrderReturnModel T)
  replace_entries d e [] = ([], some (record { id_ = identity_of (id_combo d); qty = e ∷ [] }))
  replace_entries d e (r ∷ rs) =
      let rest = replace_entries d e rs in
      if is_return d r then (record r { qty = e ∷ [] } ∷ rs, none) else (r ∷ rest.0, rest.1)

  -- The second loop, for one request; `unwrap` on a missing line panics.
  unfoldable pub add_request :
      T
      → List (OrderLineModel T)
      → OrderLineReturnReqDto
      → List (OrderReturnModel T)
      → Outcome (List (OrderReturnModel T) × Option (OrderReturnModel T))
  add_request time_now o_lines d o_returns = elim (find (is_line d) o_lines) [
    | none ↦ panicked
    | some oline ↦ returned (replace_entries d (new_entry time_now d oline) o_returns)
  ]

  abbrev pub push_new :
      Option (OrderReturnModel T) → List (OrderReturnModel T) → List (OrderReturnModel T)
  push_new none rs = rs
  push_new (some r) rs = r ∷ rs

  -- The saved returns afterwards, and the new ones.
  unfoldable pub add_requests :
      T
      → List (OrderLineModel T)
      → List OrderLineReturnReqDto
      → List (OrderReturnModel T)
      → Outcome (List (OrderReturnModel T) × List (OrderReturnModel T))
  add_requests time_now o_lines [] o_returns = returned (o_returns, [])
  add_requests time_now o_lines (d ∷ ds) o_returns =
      add_request time_now o_lines d o_returns >>= λ r.
      add_requests time_now o_lines ds r.0 >>= λ rest. returned (rest.0, push_new r.1 rest.1)

-- `Result<Vec<OrderReturnModel>, Vec<OrderLineReturnErrorDto>>`
pub data Filtered (T : Type 0) : Type 0 where
  ok : List (OrderReturnModel T) → Filtered T
  err : List OrderLineReturnErrorDto → Filtered T

-- `hard_limit::MIN_SECS_INTVL_REQ`
abbrev pub min_secs_intvl_req : ℕ
min_secs_intvl_req = 3

module _ {T : Type 0} ⦃c : Chrono T⦄ where
  -- `OrderReturnModel::filter_requests`, at the time `now` of the clock.
  unfoldable pub filter_requests :
      T
      → List OrderLineReturnReqDto
      → List (OrderLineModel T)
      → List (OrderReturnModel T)
      → Outcome (Filtered T)
  filter_requests now data_in o_lines o_returns =
      let time_now = c.trunc_to now min_secs_intvl_req in
      let errors = check_requests time_now o_lines o_returns data_in in
      let added = add_requests time_now o_lines data_in o_returns in
      if is_empty errors then (added >>= λ r. returned (ok (r.0 ++ r.1))) else returned (err errors)
