-- ===== src/Payment/Charge/Create.antt =====
-- How a charge is made from the request of a buyer: `ChargeLineBuyerModel::try_from` and
-- `ChargeBuyerModel::try_from` of services/payment/src/model/charge.rs.
pub mod Exact
pub mod Limits
use e_commerce.Common.{
  ℕ, Bool, true, false, not, Option, none, some, List, String, if◌then◌else◌, ltb, is_empty, str_eq,
}
use e_commerce.Common.Chrono.{Chrono}
use e_commerce.Common.Outcome.{keep_ok, Outcome, returned, ◌>>◌, assert, Result, ok, err, ok_or}
use e_commerce.Order.Dto.{GenericRangeErrorDto}
use e_commerce.Order.Line.{BaseProductIdentity}
use e_commerce.Common.Decimal.{Decimal}
use e_commerce.Payment.Amount.{PayAmountDto, PayLineAmountModel, AmountResult, default_amount}
use e_commerce.Payment.Amount as Amount
use e_commerce.Common.Currency.{CurrencyDto, unknown_currency, currency_eq, amount_fraction_scale}
use e_commerce.Payment.OrderReplica.{
  OrderLineModel, OrderLineModelSet, CurrencyMap, OrderCurrencySnapshot, get, as_u16, find_line,
  check_qty_avail,
}
use e_commerce.Payment.Charge.Line.{ChargeLineBuyerModel}
use e_commerce.Payment.Charge.State.{ChargeBuyerMetaModel, new_meta}

-- services/payment/src/api/web/dto.rs
pub record ChargeAmountOlineDto : Type 0 where
  pub seller_id : ℕ
  pub product_id : ℕ
  pub attr_set_seq : ℕ
  pub quantity : ℕ
  pub amount : PayAmountDto

pub record ChargeReqOrderDto : Type 0 where
  pub id : String
  pub lines : List ChargeAmountOlineDto
  pub currency : CurrencyDto

pub data OrderErrorReason : Type 0 where
  invalid_order : OrderErrorReason

pub data PaymentMethodErrorReason : Type 0 where
  invalid_user operation_refuse processor_failure : PaymentMethodErrorReason

pub record ChargeOlineErrorDto : Type 0 where
  pub seller_id : ℕ
  pub product_id : ℕ
  pub attr_set_seq : ℕ
  pub quantity : Option GenericRangeErrorDto
  pub amount : Option PayAmountDto
  pub expired : Option Bool
  pub not_exist : Bool

pub record ChargeRespErrorDto : Type 0 where
  pub order_id : Option OrderErrorReason
  pub method : Option PaymentMethodErrorReason
  pub lines : Option (List ChargeOlineErrorDto)
  pub currency : Option CurrencyDto
  pub num_charges_exceed : Option GenericRangeErrorDto

abbrev pub default_error : ChargeRespErrorDto
default_error = record {
  order_id = none;
  method = none;
  lines = none;
  currency = none;
  num_charges_exceed = none;
}

pub record ChargeBuyerModel (T D : Type 0) : Type 0 where
  pub meta : ChargeBuyerMetaModel T
  pub currency_snapshot : CurrencyMap D
  pub lines : List (ChargeLineBuyerModel D)

abbrev pub seconds_orderline_discard_margin : ℕ
seconds_orderline_discard_margin = 55

abbrev pub line_error : ChargeAmountOlineDto → ChargeOlineErrorDto
line_error rl = record {
  seller_id = rl.seller_id;
  product_id = rl.product_id;
  attr_set_seq = rl.attr_set_seq;
  quantity = none;
  amount = none;
  expired = none;
  not_exist = false;
}

abbrev pub amount_error : ChargeAmountOlineDto → ChargeOlineErrorDto
amount_error rl = record (line_error rl) {
  amount = some rl.amount;
  quantity = some (record { max_ = as_u16 rl.quantity; given = rl.quantity; min_ = 1 });
}

module _ {D : Type 0} ⦃d : Decimal D⦄ where
  abbrev pub charged_line : ChargeAmountOlineDto → PayLineAmountModel D → ChargeLineBuyerModel D
  charged_line rl amount_orig = record {
    pid = record { store_id = rl.seller_id; product_id = rl.product_id };
    amount_orig = amount_orig;
    attr_set_seq = rl.attr_set_seq;
    amount_refunded = default_amount;
    num_rejected = 0;
  }

module _ {T D : Type 0} ⦃c : Chrono T⦄ ⦃d : Decimal D⦄ where
  -- the checks on the order line, after that of its quantity
  abbrev pub line_in_time :
      ChargeAmountOlineDto
      → T
      → PayLineAmountModel D
      → OrderLineModel T D
      → Result ChargeOlineErrorDto (ChargeLineBuyerModel D)
  line_in_time rl now amount_orig v =
      if c.lt (c.sub_secs v.reserved_until seconds_orderline_discard_margin) now
      then err (record (line_error rl) { expired = some true })
      else if not (d.eq amount_orig.unit v.rsv_total.unit)
      then err (record (line_error rl) { amount = some rl.amount })
      else ok (charged_line rl amount_orig)

  abbrev pub line_found :
      ChargeAmountOlineDto
      → T
      → PayLineAmountModel D
      → Option (OrderLineModel T D)
      → Result ChargeOlineErrorDto (ChargeLineBuyerModel D)
  line_found rl now amount_orig none = err (record (line_error rl) { not_exist = true })
  line_found rl now amount_orig (some v) = elim (check_qty_avail v rl.quantity) [
    | err re ↦ err (record (line_error rl) { quantity = some re })
    | ok q_avail ↦ line_in_time rl now amount_orig v
  ]

  abbrev pub line_with_amount :
      List (OrderLineModel T D)
      → ChargeAmountOlineDto
      → T
      → AmountResult (PayLineAmountModel D)
      → Result ChargeOlineErrorDto (ChargeLineBuyerModel D)
  line_with_amount olines rl now (Amount.err e) = err (amount_error rl)
  line_with_amount olines rl now (Amount.ok amount_orig) =
      line_found rl now amount_orig
        (find_line olines (rl.seller_id, rl.product_id, rl.attr_set_seq))

  -- `TryFrom<(&Vec<OrderLineModel>, ChargeAmountOlineDto, CurrencyDto, DateTime<Utc>)>`
  unfoldable pub line_try_from :
      List (OrderLineModel T D)
      → ChargeAmountOlineDto
      → CurrencyDto
      → T
      → Result ChargeOlineErrorDto (ChargeLineBuyerModel D)
  line_try_from olines rl label now =
      line_with_amount olines rl now
        (Amount.try_from rl.quantity rl.amount (amount_fraction_scale label))

  -- the charge of a request in the currency of the order, at the time of the clock when the lines
  -- are checked and a later one when the charge is made
  abbrev pub in_currency :
      OrderLineModelSet T D
      → ChargeReqOrderDto
      → CurrencyDto
      → T
      → T
      → Result ChargeRespErrorDto (ChargeBuyerModel T D)
  in_currency ms req label now later =
      let kept = keep_ok (λ rl. line_try_from ms.lines rl label now) req.lines in
      if is_empty kept.1
      then ok (record {
        meta = new_meta ms.id ms.buyer_id later;
        currency_snapshot = ms.currency_snapshot;
        lines = kept.0;
      })
      else err (record default_error { lines = some kept.1; currency = some label })

  abbrev pub for_buyer :
      OrderLineModelSet T D
      → ChargeReqOrderDto
      → T
      → T
      → Option (OrderCurrencySnapshot D)
      → Result ChargeRespErrorDto (ChargeBuyerModel T D)
  for_buyer ms req now later none = err (record default_error { currency = some unknown_currency })
  for_buyer ms req now later (some s) =
      if currency_eq s.label req.currency
      then in_currency ms req s.label now later
      else err (record default_error { currency = some s.label })

  -- `TryFrom<(OrderLineModelSet, ChargeReqOrderDto)>`
  unfoldable pub try_from :
      OrderLineModelSet T D
      → ChargeReqOrderDto
      → T
      → T
      → Result ChargeRespErrorDto (ChargeBuyerModel T D)
  try_from ms req now later =
      if str_eq ms.id req.id
      then for_buyer ms req now later (get ms.buyer_id ms.currency_snapshot)
      else err (record default_error { order_id = some invalid_order })

module _ {D : Type 0} ⦃d : Decimal D⦄ where
  -- `From<ChargeLineBuyerArgs>`, with its assertions
  unfoldable pub from_parts : ChargeLineBuyerModel D → Outcome (ChargeLineBuyerModel D)
  from_parts a =
      let positive = λ (x : D). not (d.le x d.zero) in
      assert (positive a.amount_orig.unit)
      >> assert (positive a.amount_orig.total)
      >> assert (ltb 0 a.amount_orig.qty)
      >> returned
          (record a { amount_refunded = record a.amount_refunded { unit = a.amount_orig.unit } })
