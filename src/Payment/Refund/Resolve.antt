-- ===== src/Payment/Refund/Resolve.antt =====
-- How a completion request is matched with one charged line: `RefundLineReqResolutionModel` of
-- services/payment/src/model/refund.rs.
pub mod Bounds
use e_commerce.Common.{
  ℕ, ◌+◌, Bool, true, false, ◌&&◌, Option, none, some, List, [], ◌∷◌, String, min, ltb, ◌==◌,
  if◌then◌else◌, add32, sub32,
}
use e_commerce.Common.Outcome.{Outcome, returned, panicked, ◌>>=◌}
use e_commerce.Order.Line.{BaseProductIdentity}
use e_commerce.Common.Decimal.{Decimal, decimal_min}
use e_commerce.Payment.Amount.{PayLineAmountModel}
use e_commerce.Payment.Charge.Line.{ChargeLineBuyerModel, amount_remain}
use e_commerce.Payment.Refund.Reject.{RejectMap, total_qty, build_and_reduce}

-- services/payment/src/api/web/dto.rs
pub record RefundLineApprovalDto : Type 0 where
  pub quantity : ℕ
  pub amount_total : String

pub record RefundCompletionOlineReqDto (T : Type 0) : Type 0 where
  pub product_id : ℕ
  pub attr_set_seq : ℕ
  pub time_issued : T
  pub reject : RejectMap
  pub approval : RefundLineApprovalDto

abbrev pub total_qty_rejected : {T : Type 0} → RefundCompletionOlineReqDto T → ℕ
total_qty_rejected r = total_qty r.reject

pub record RefundLineResolveAmountModel (D : Type 0) : Type 0 where
  pub accumulated_paid : PayLineAmountModel D
  pub accumulated_rejected : ℕ
  pub curr_round : PayLineAmountModel D

pub record RefundLineReqResolutionModel (T D : Type 0) : Type 0 where
  pub pid : BaseProductIdentity
  pub attr_set_seq : ℕ
  pub time_req : T
  pub qty_reject : RejectMap
  pub amount : RefundLineResolveAmountModel D

-- What is left of the charged line while its requests are resolved.
pub record Remain (D : Type 0) : Type 0 where
  pub qty : ℕ
  pub total : D

unfoldable pub total_qty_curr_round : {T D : Type 0} → RefundLineReqResolutionModel T D → ℕ
total_qty_curr_round m = add32 (total_qty m.qty_reject) m.amount.curr_round.qty

abbrev pub is_request_for :
    {T D : Type 0} → ChargeLineBuyerModel D → RefundCompletionOlineReqDto T → Bool
is_request_for c r = c.pid.product_id == r.product_id && c.attr_set_seq == r.attr_set_seq

module _ {T D : Type 0} ⦃d : Decimal D⦄ where
  -- The body of the loop on one request, at the amount that it asks for.
  unfoldable pub resolve_one :
      ChargeLineBuyerModel D
      → RefundCompletionOlineReqDto T
      → D
      → Remain D
      → Remain D × RefundLineReqResolutionModel T D
  resolve_one c r amt_tot_req remain =
      let qty4aprv = min remain.qty r.approval.quantity in
      let tot_amt_4aprv = decimal_min remain.total amt_tot_req in
      let remain1 =
        (if ltb 0 qty4aprv
          then record remain {
            qty = sub32 remain.qty qty4aprv;
            total = d.sub remain.total tot_amt_4aprv;
          }
          else remain) in
      let qty4rejreq = total_qty_rejected r in
      let qty4rej = min remain1.qty qty4rejreq in
      let remain2 =
        (if ltb 0 qty4rej then record remain1 { qty = sub32 remain1.qty qty4rej } else remain1) in
      (
        remain2,
        record {
          pid = c.pid;
          attr_set_seq = c.attr_set_seq;
          time_req = r.time_issued;
          qty_reject = build_and_reduce r.reject (sub32 qty4rejreq qty4rej);
          amount = record {
            accumulated_paid = c.amount_refunded;
            accumulated_rejected = c.num_rejected;
            curr_round = record {
              unit = c.amount_refunded.unit;
              total = tot_amt_4aprv;
              qty = qty4aprv;
            };
          };
        },
      )

  abbrev pub push_resolution :
      RefundLineReqResolutionModel T D
      → List (RefundLineReqResolutionModel T D)
      → List (RefundLineReqResolutionModel T D)
  push_resolution m ms = if ltb 0 (total_qty_curr_round m) then m ∷ ms else ms

  -- The loop; `unwrap` on an amount that is no number panics.
  unfoldable pub resolve_from :
      ChargeLineBuyerModel D
      → List (RefundCompletionOlineReqDto T)
      → Remain D
      → Outcome (List (RefundLineReqResolutionModel T D))
  resolve_from c [] remain = returned []
  resolve_from c (r ∷ rs) remain =
      let skip = resolve_from c rs remain in
      let run = (λ (amt : D). resolve_from c rs (resolve_one c r amt remain).0 >>= λ ms.
      returned (push_resolution (resolve_one c r amt remain).1 ms)) in
      if is_request_for c r
      then (elim (d.of_str r.approval.amount_total) [ none ↦ panicked | some amt ↦ run amt ])
      else skip

  -- `RefundLineReqResolutionModel::to_vec`
  unfoldable pub to_vec :
      ChargeLineBuyerModel D
      → List (RefundCompletionOlineReqDto T)
      → Outcome (List (RefundLineReqResolutionModel T D))
  to_vec c lines =
      amount_remain c >>= λ m. resolve_from c lines (record { qty = m.qty; total = m.total })
