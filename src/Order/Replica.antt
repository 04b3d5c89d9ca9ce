-- ===== src/Order/Replica.antt =====
-- The copy of an order for the payment service: `OrderLineModelSet::replica_paym_dto` and
-- `into_paym_dto` of services/order/src/model/order.rs.
use e_commerce.Common.{ℕ, List, [], ◌∷◌, String}
use e_commerce.Common.Chrono.{Chrono}
use e_commerce.Common.Currency.{amount_fraction_scale}
use e_commerce.Common.Decimal.{Decimal}
use e_commerce.Common.Outcome.{Result, ok, err, keep_ok}
use e_commerce.Contact.Billing.{BillingModel, billing_dto}
use e_commerce.Order.Line.{OrderLineModel, OrderLinePriceModel, store_id, product_id}
use e_commerce.Order.Price.Edit.{AppError}
use e_commerce.Order.Currency.{CurrencyModel, OrderCurrencyModel, to_buyer_rate, snapshot_dto}
use e_commerce.Payment.Amount.{PayAmountDto}
use e_commerce.Payment.OrderReplica.{OrderLinePayDto}
use e_commerce.Payment.Charge.Request.{OrderReplicaPaymentDto}

module _ {D : Type 0} ⦃d : Decimal D⦄ where
  -- an amount at the rate of the buyer, cut to the places of the currency
  abbrev pub in_buyer_currency : CurrencyModel D → ℕ → D
  in_buyer_currency curr_ex n =
      d.trunc_with_scale (d.mul (d.of_u32 n) curr_ex.rate) (amount_fraction_scale curr_ex.name)

  -- `OrderLinePriceModel::into_paym_dto`
  abbrev pub amount_dto : OrderLinePriceModel → CurrencyModel D → PayAmountDto
  amount_dto p curr_ex = record {
    unit = d.to_str (in_buyer_currency curr_ex p.unit);
    total = d.to_str (in_buyer_currency curr_ex p.total);
  }

  -- the dto, or the first of the errors
  abbrev pub replica_of :
      String
      → ℕ
      → OrderCurrencyModel D
      → BillingModel
      → List OrderLinePayDto × List AppError
      → Result AppError OrderReplicaPaymentDto
  replica_of oid usr_id currency_m billing (lines, e ∷ es) = err e
  replica_of oid usr_id currency_m billing (lines, []) = ok (record {
    oid = oid;
    usr_id = usr_id;
    lines = lines;
    billing = billing_dto billing;
    currency = snapshot_dto currency_m;
  })

module _ {T D : Type 0} ⦃c : Chrono T⦄ ⦃d : Decimal D⦄ where
  -- `OrderLineModel::into_paym_dto`
  unfoldable pub line_dto : OrderLineModel T → CurrencyModel D → OrderLinePayDto
  line_dto l curr_m = record {
    seller_id = store_id l.id_;
    product_id = product_id l.id_;
    attr_set_seq = l.id_.attr_set_req;
    quantity = l.qty.reserved;
    reserved_until = c.to_rfc3339 l.policy.reserved_until;
    amount = amount_dto l.price curr_m;
  }

  abbrev pub line_at_rate :
      OrderLineModel T → Result AppError (CurrencyModel D) → Result AppError OrderLinePayDto
  line_at_rate l (ok rate) = ok (line_dto l rate)
  line_at_rate l (err e) = err e

  abbrev pub line_of : OrderCurrencyModel D → OrderLineModel T → Result AppError OrderLinePayDto
  line_of currency_m l = line_at_rate l (to_buyer_rate currency_m (store_id l.id_))

  -- `OrderLineModelSet::replica_paym_dto`
  unfoldable pub replica_paym_dto :
      String
      → ℕ
      → List (OrderLineModel T)
      → OrderCurrencyModel D
      → BillingModel
      → Result AppError OrderReplicaPaymentDto
  replica_paym_dto oid usr_id olines currency_m billing =
      replica_of oid usr_id currency_m billing (keep_ok (line_of currency_m) olines)
