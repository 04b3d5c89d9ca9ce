-- ===== src/Payment/Charge/RefundMap.antt =====
-- What the resolved refunds leave at the lines of a charge: `ChargeRefundMap::merge` of
-- services/payment/src/model/charge.rs.
pub mod Bounds
use e_commerce.Common.{
  ℕ, Bool, true, false, ◌&&◌, Option, none, some, List, [], ◌∷◌, ◌==◌, if◌then◌else◌, add32,
}
use e_commerce.Order.Line.{BaseProductIdentity}
use e_commerce.Common.Decimal.{Decimal}
use e_commerce.Payment.Amount.{PayLineAmountModel}
use e_commerce.Payment.Refund.Reject.{total_qty}
use e_commerce.Payment.Refund.Resolve.{RefundLineReqResolutionModel}
use e_commerce.Payment.Refund.Line.{pid_eq}

abbrev pub RefundLineKey : Type 0
RefundLineKey = BaseProductIdentity × ℕ

-- The refunded amount of a line, and its rejected pieces.
pub record RefundEntry (D : Type 0) : Type 0 where
  pub amount : PayLineAmountModel D
  pub num_rejected : ℕ

-- The entry of each line that has an entry, in the order of the iteration.
abbrev pub ChargeRefundLineMap : Type 0 → Type 0
ChargeRefundLineMap D = List (RefundLineKey × RefundEntry D)

abbrev pub same_key : RefundLineKey → RefundLineKey → Bool
same_key (p, n) (q, k) = pid_eq p q && n == k

abbrev pub line_key : {T D : Type 0} → RefundLineReqResolutionModel T D → RefundLineKey
line_key m = (m.pid, m.attr_set_seq)

-- `HashMap::get`
abbrev pub entry_of : {D : Type 0} → RefundLineKey → ChargeRefundLineMap D → Option (RefundEntry D)
entry_of k [] = none
entry_of k ((j, e) ∷ es) = if same_key j k then some e else entry_of k es

module _ {T D : Type 0} ⦃d : Decimal D⦄ where
  -- The current round of a resolution on an entry.
  abbrev pub add_round : RefundLineReqResolutionModel T D → RefundEntry D → RefundEntry D
  add_round m e = record {
    amount = record e.amount {
      total = d.add e.amount.total m.amount.curr_round.total;
      qty = add32 e.amount.qty m.amount.curr_round.qty;
    };
    num_rejected = add32 e.num_rejected (total_qty m.qty_reject);
  }

  -- One resolution: a line without an entry starts with the earlier rounds.
  unfoldable pub merge_line :
      RefundLineReqResolutionModel T D → ChargeRefundLineMap D → ChargeRefundLineMap D
  merge_line m [] =
      (
        line_key m,
        add_round m (record {
          amount = m.amount.accumulated_paid;
          num_rejected = m.amount.accumulated_rejected;
        }),
      )
      ∷ []
  merge_line m ((j, e) ∷ es) =
      if same_key j (line_key m) then (j, add_round m e) ∷ es else (j, e) ∷ merge_line m es

  -- `ChargeRefundMap::merge`
  unfoldable pub merge :
      ChargeRefundLineMap D → List (RefundLineReqResolutionModel T D) → ChargeRefundLineMap D
  merge inner_map [] = inner_map
  merge inner_map (m ∷ ms) = merge (merge_line m inner_map) ms
