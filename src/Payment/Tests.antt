-- ===== src/Payment/Tests.antt =====
-- Runs of the payment service's operations, on decimals that are whole numbers of cents: the
-- witnesses of the theorems.
pub mod Tokens
pub mod Charges
pub mod Requests
pub mod Mills
pub mod Handover
use e_commerce.Common.{
  ℕ, ◌+◌, ◌-◌, ◌*◌, ◌≤◌, ◌≡◌, refl, false, Option, none, some, String, [], ◌∷◌, arith, str_eq, leb,
  ◌==◌, if◌then◌else◌, add32,
}
use e_commerce.Common.Chrono.{Millis, millis_chrono}
use e_commerce.Order.Line.{BaseProductIdentity}
use e_commerce.Common.Decimal.{Decimal}
use e_commerce.Payment.Amount.{try_from, IsAmountOf, try_from-IsAmountOf}
use e_commerce.Payment.Charge.Line.{ChargeLineBuyerModel}
use e_commerce.Payment.Refund.Reject.{
  RejectMap, count, total_qty, rejected, build_and_reduce, build_and_reduce_lem,
}
use e_commerce.Payment.Refund.Resolve.{
  RefundCompletionOlineReqDto, RefundLineReqResolutionModel, Remain, resolve_one, to_vec,
}
use e_commerce.Payment.Refund.Resolve.Bounds.{FitsWord, Settles, to_vec-Settles}
use e_commerce.Payment.Refund.Line.{
  OLineRefundModel, OrderLineReplicaRefundDto, estimate_remain_quantity, accumulate_line, update,
}
use e_commerce.Payment.Refund.Line as Line
use e_commerce.Payment.Charge.RefundMap.{entry_of, merge}
use e_commerce.Payment.Charge.RefundMap.Bounds.{pieces_of, merge-pieces_of}
use e_commerce.Payment.Refund.Line.Validate.{Validates, validate-Validates}
use e_commerce.Payment.Refund.Line.Bounds.{
  IsWithin, Estimates, estimate_remain_quantity-Estimates, IsNew, try_from-IsNew, Updates,
  update-Updates, Settled, accumulate_line-IsWithin,
}
use e_commerce.Payment.Refund.Resolve.Bounds.{settled}

abbrev Cents : Type 0
Cents = ℕ

-- The reader knows three numbers.
abbrev parse_cents : String → Option Cents
parse_cents s =
    if str_eq s "5"
    then some 5
    else if str_eq s "10"
    then some 10
    else if str_eq s "20"
    then some 20
    else none

instance abbrev cents_decimal : Decimal Cents
cents_decimal = record {
  zero = 0;
  of_u32 = λ n. n;
  of_str = parse_cents;
  add = ◌+◌;
  sub = ◌-◌;
  mul = ◌*◌;
  saturating_sub = ◌-◌;
  checked_sub = λ a b. if leb b a then some (a - b) else none;
  checked_mul = λ a b. some (a * b);
  le = leb;
  eq = ◌==◌;
  is_sign_negative = λ a. false;
  scale = λ a. 0;
  to_str = λ a. "5";
  checked_div = λ a b. none;
  trunc_with_scale = λ a n. a;
}

abbrev reject : ℕ → ℕ → RejectMap
reject n k = record { damaged = some n; fraudulent = some k }

abbrev pid : BaseProductIdentity
pid = record { store_id = 7; product_id = 3 }

-- 9 pieces at 5, of which 2 are refunded and 1 is rejected
abbrev charged : ChargeLineBuyerModel Cents
charged = record {
  pid = pid;
  attr_set_seq = 0;
  amount_orig = record { unit = 5; total = 45; qty = 9 };
  amount_refunded = record { unit = 5; total = 10; qty = 2 };
  num_rejected = 1;
}

abbrev completion : ℕ → RejectMap → RefundCompletionOlineReqDto Millis
completion n r = record {
  product_id = 3;
  attr_set_seq = 0;
  time_issued = 5_000;
  reject = r;
  approval = record { quantity = n; amount_total = "10" };
}

to_vec-Settles_example :
    Settles charged 6 (to_vec charged (completion 2 (reject 1 1) ∷ completion 2 (reject 2 0) ∷ []))
to_vec-Settles_example =
    to_vec-Settles charged (completion 2 (reject 1 1) ∷ completion 2 (reject 2 0) ∷ [])
      (refl, omega arith, omega arith) (ground arith) ((λ e. cc), ((λ e. cc), tt))

-- 4 of 8 pieces are open.
abbrev refund_line : OLineRefundModel Millis Cents
refund_line = record {
  pid = pid;
  attr_set_seq = 0;
  amount_req = record { unit = 5; total = 40; qty = 8 };
  time_req = 5_200;
  amount_aprv = record { unit = 5; total = 15; qty = 3 };
  rejected_ = reject 1 0;
}

refund_line-IsWithin : IsWithin refund_line
refund_line-IsWithin = ground arith

completion-FitsWord : FitsWord (completion 2 (reject 1 1))
completion-FitsWord = ground arith

abbrev remain : Remain Cents
remain = record { qty = 6; total = 30 }

abbrev resolution : RefundLineReqResolutionModel Millis Cents
resolution = (resolve_one charged (completion 2 (reject 1 1)) 10 remain).1

accumulate_line-IsWithin_example :
    Settled refund_line (settled resolution) (accumulate_line resolution refund_line)
unfolding estimate_remain_quantity total_qty add32 resolve_one
accumulate_line-IsWithin_example =
    accumulate_line-IsWithin refund_line (completion 2 (reject 1 1)) charged 10 remain 0
      refund_line-IsWithin completion-FitsWord (omega arith) refl refl

abbrev granted_one : RefundLineReqResolutionModel Millis Cents
granted_one = record {
  pid = pid;
  attr_set_seq = 0;
  time_req = 5_900;
  qty_reject = reject 1 1;
  amount = record {
    accumulated_paid = record { unit = 5; total = 15; qty = 3 };
    accumulated_rejected = 1;
    curr_round = record { unit = 5; total = 10; qty = 2 };
  };
}

update-Updates_example :
    Updates (granted_one ∷ []) (refund_line ∷ []) (update (refund_line ∷ []) (granted_one ∷ []))
update-Updates_example =
    update-Updates (granted_one ∷ []) (refund_line ∷ []) (refund_line-IsWithin, tt)
      ((refl, omega arith), tt)

abbrev replica : OrderLineReplicaRefundDto
replica = record {
  seller_id = 7;
  product_id = 3;
  attr_set_seq = 0;
  create_time = "then";
  amount = record { unit = "5"; total = "20" };
  qty = 4;
}

validate-Validates_example :
    Validates
      (refund_line ∷ [])
      7
      (completion 2 (reject 1 1) ∷ [])
      (Line.validate (refund_line ∷ []) 7 (completion 2 (reject 1 1) ∷ []))
validate-Validates_example =
    validate-Validates (refund_line ∷ []) 7 (completion 2 (reject 1 1) ∷ [])
      (refund_line-IsWithin, tt) (completion-FitsWord, tt)

-- A later round of the same line: one piece approved, one rejected.
abbrev later_round : RefundLineReqResolutionModel Millis Cents
later_round = record granted_one {
  time_req = 6_900;
  qty_reject = reject 0 1;
  amount = record {
    accumulated_paid = record { unit = 5; total = 15; qty = 3 };
    accumulated_rejected = 1;
    curr_round = record { unit = 5; total = 5; qty = 1 };
  };
}
