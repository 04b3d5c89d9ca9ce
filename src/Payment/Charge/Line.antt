-- ===== src/Payment/Charge/Line.antt =====
-- A charged line: `ChargeLineBuyerModel` of services/payment/src/model/charge.rs.
use e_commerce.Common.{ℕ, ◌-◌, leb}
use e_commerce.Common.Outcome.{Outcome, returned, ◌>>◌, assert}
use e_commerce.Order.Line.{BaseProductIdentity}
use e_commerce.Common.Decimal.{Decimal}
use e_commerce.Payment.Amount.{PayLineAmountModel}

pub record ChargeLineBuyerModel (D : Type 0) : Type 0 where
  pub pid : BaseProductIdentity
  pub attr_set_seq : ℕ
  pub amount_orig : PayLineAmountModel D
  pub amount_refunded : PayLineAmountModel D
  pub num_rejected : ℕ

abbrev pub id : {D : Type 0} → ChargeLineBuyerModel D → ℕ × ℕ × ℕ
id c = (c.pid.store_id, c.pid.product_id, c.attr_set_seq)

module _ {D : Type 0} ⦃d : Decimal D⦄ where
  -- `ChargeLineBuyerModel::amount_remain`; the subtractions on `u32` saturate.
  unfoldable pub amount_remain : ChargeLineBuyerModel D → Outcome (PayLineAmountModel D)
  amount_remain c =
      let orig = c.amount_orig in
      let refunded = c.amount_refunded in
      let rejected = d.mul (d.of_u32 c.num_rejected) orig.unit in
      assert (d.eq orig.unit refunded.unit)
      >> assert (leb c.num_rejected orig.qty)
      >> assert (leb refunded.qty orig.qty)
      >> returned (record {
        unit = orig.unit;
        total = d.saturating_sub (d.saturating_sub orig.total refunded.total) rejected;
        qty = orig.qty - refunded.qty - c.num_rejected;
      })
