-- ===== src/Payment/Refund/Line.antt =====
-- The lines that a buyer asks to refund: `OLineRefundModel`, `OrderRefundModel` of
-- services/payment/src/model/refund.rs.
pub mod Bounds
pub mod Validate
use e_commerce.Common.{
  ℕ, ◌+◌, ◌-◌, Bool, true, false, ◌&&◌, Option, none, some, List, [], ◌∷◌, String, find, length,
  suc, is_empty, ltb, ◌==◌, if◌then◌else◌, add32,
}
use e_commerce.Common.Chrono.{Chrono}
use e_commerce.Common.Outcome.{
  Outcome, returned, panicked, ◌>>=◌, ◌>>◌, assert, Result, ok, err, ◌>>?◌, ok_or,
}
use e_commerce.Order.Line.{BaseProductIdentity}
use e_commerce.Common.Decimal.{Decimal}
use e_commerce.Payment.Amount.{
  PayAmountDto, PayLineAmountError, parse_unit, parse_total, PayLineAmountModel, default_amount,
}
use e_commerce.Payment.Refund.Reject.{RejectMap, default_reject, total_qty, accumulate}
use e_commerce.Payment.Refund.Resolve.{
  RefundCompletionOlineReqDto, RefundLineReqResolutionModel, RefundLineResolveAmountModel,
  total_qty_rejected,
}

-- Without the texts that the libraries print.
pub data RefundErrorParseOline : Type 0 where
  create_time : RefundErrorParseOline
  amount : PayLineAmountError → RefundErrorParseOline

-- The errors of one line; those of a whole resolution are in the module of resolutions.
pub data RefundModelError (T D : Type 0) : Type 0 where
  parse_oline : BaseProductIdentity → ℕ → RefundErrorParseOline → RefundModelError T D
  qty_insufficient : BaseProductIdentity → ℕ → ℕ → ℕ → RefundModelError T D
  amount_insufficient : BaseProductIdentity → ℕ → D → D → RefundModelError T D
  missing_req_line : BaseProductIdentity → ℕ → T → RefundModelError T D

pub record OLineRefundModel (T D : Type 0) : Type 0 where
  pub pid : BaseProductIdentity
  pub attr_set_seq : ℕ
  pub amount_req : PayLineAmountModel D
  pub time_req : T
  pub amount_aprv : PayLineAmountModel D
  pub rejected_ : RejectMap

-- `OrderLineReplicaRefundDto` of services/common/rust/src/api/rpc/dto.rs
pub record OrderLineReplicaRefundDto : Type 0 where
  pub seller_id : ℕ
  pub product_id : ℕ
  pub attr_set_seq : ℕ
  pub create_time : String
  pub amount : PayAmountDto
  pub qty : ℕ

abbrev pub pid_eq : BaseProductIdentity → BaseProductIdentity → Bool
pid_eq a b = a.store_id == b.store_id && a.product_id == b.product_id

module _ {T D : Type 0} ⦃c : Chrono T⦄ where
  -- `OrderRefundModel::get_line`
  abbrev pub is_line_at : BaseProductIdentity → ℕ → T → OLineRefundModel T D → Bool
  is_line_at pid attr_seq time_req v =
      pid_eq v.pid pid
      && v.attr_set_seq == attr_seq
      && c.eq (c.trunc_secs v.time_req) (c.trunc_secs time_req)

  -- `RefundReqRslvInnerModel::get_status`
  abbrev pub is_resolution_at : OLineRefundModel T D → RefundLineReqResolutionModel T D → Bool
  is_resolution_at v m =
      pid_eq m.pid v.pid
      && m.attr_set_seq == v.attr_set_seq
      && c.eq (c.trunc_secs v.time_req) (c.trunc_secs m.time_req)

module _ {T D : Type 0} ⦃c : Chrono T⦄ ⦃d : Decimal D⦄ where
  -- `TryFrom<OrderLineReplicaRefundDto>`, given the reader of RFC 3339 dates.
  unfoldable pub try_from :
      (String → Option T)
      → OrderLineReplicaRefundDto
      → Result (RefundModelError T D) (OLineRefundModel T D)
  try_from parse_time v =
      let pid : BaseProductIdentity = record {
        store_id = v.seller_id;
        product_id = v.product_id;
      } in
      let fail : RefundErrorParseOline → RefundModelError T D =
        λ e. parse_oline pid v.attr_set_seq e in
      ok_or (fail RefundErrorParseOline.create_time) (parse_time v.create_time) >>? λ time_req.
      ok_or (fail (RefundErrorParseOline.amount (parse_unit v.amount.unit)))
        (d.of_str v.amount.unit)
      >>? λ unit.
          ok_or (fail (RefundErrorParseOline.amount (parse_total v.amount.total)))
            (d.of_str v.amount.total)
          >>? λ total. ok (record {
            pid = pid;
            attr_set_seq = v.attr_set_seq;
            amount_req = record { unit = unit; total = total; qty = v.qty };
            time_req = time_req;
            amount_aprv = record default_amount { unit = unit };
            rejected_ = default_reject;
          })

  -- `checked_sub` on `u32` with the error `qty_limit`
  abbrev pub subtract_qty : OLineRefundModel T D → ℕ → ℕ → Result (RefundModelError T D) ℕ
  subtract_qty m n k =
      if ltb n k then err (qty_insufficient m.pid m.attr_set_seq n k) else ok (n - k)

  unfoldable pub estimate_remain_quantity :
      OLineRefundModel T D → RefundCompletionOlineReqDto T → Result (RefundModelError T D) ℕ
  estimate_remain_quantity m data_ =
      subtract_qty m m.amount_req.qty m.amount_aprv.qty
      >>? (λ a. subtract_qty m a (total_qty m.rejected_))
      >>? (λ b. subtract_qty m b data_.approval.quantity)
      >>? λ e. subtract_qty m e (total_qty_rejected data_)

  -- `check_subtract_amount!` on the result of `checked_sub`
  abbrev pub non_negative :
      OLineRefundModel T D → D → D → Option D → Result (RefundModelError T D) D
  non_negative m n0 n1 none = err (amount_insufficient m.pid m.attr_set_seq n0 n1)
  non_negative m n0 n1 (some out) =
      if d.is_sign_negative out
      then err (amount_insufficient m.pid m.attr_set_seq n0 n1)
      else ok out

  unfoldable pub check_subtract_amount :
      OLineRefundModel T D → D → D → Result (RefundModelError T D) D
  check_subtract_amount m n0 n1 = non_negative m n0 n1 (d.checked_sub n0 n1)

  unfoldable pub estimate_remain_amount :
      OLineRefundModel T D → RefundCompletionOlineReqDto T → Result (RefundModelError T D) D
  estimate_remain_amount m data_ =
      ok_or
        (parse_oline m.pid m.attr_set_seq
          (RefundErrorParseOline.amount (parse_total data_.approval.amount_total)))
        (d.of_str data_.approval.amount_total)
      >>? λ amt_new_aprv.
          check_subtract_amount m m.amount_req.total m.amount_aprv.total
          >>? (λ a. check_subtract_amount m a amt_new_aprv)
          >>? λ b.
              check_subtract_amount m b
                (d.mul (d.of_u32 (total_qty_rejected data_)) m.amount_req.unit)

  unfoldable pub estimate_remains :
      OLineRefundModel T D → RefundCompletionOlineReqDto T → Result (RefundModelError T D) (ℕ × D)
  estimate_remains m data_ = estimate_remain_quantity m data_ >>? λ qty.
      estimate_remain_amount m data_ >>? λ amt_tot. ok (qty, amt_tot)

  -- One line of `validate`, with the line that `get_line` found for it.
  abbrev pub validate_found :
      ℕ
      → RefundCompletionOlineReqDto T
      → Option (OLineRefundModel T D)
      → Result (RefundModelError T D) (ℕ × ℕ × T × ℕ × D)
  validate_found merchant_id r none = err (
      missing_req_line (record { store_id = merchant_id; product_id = r.product_id }) r.attr_set_seq
        r.time_issued)
  validate_found merchant_id r (some line) = estimate_remains line r >>? λ rest.
      ok (r.product_id, r.attr_set_seq, r.time_issued, rest.0, rest.1)

  unfoldable pub validate_line :
      List (OLineRefundModel T D)
      → ℕ
      → RefundCompletionOlineReqDto T
      → Result (RefundModelError T D) (ℕ × ℕ × T × ℕ × D)
  validate_line ls merchant_id r =
      let pid : BaseProductIdentity = record {
        store_id = merchant_id;
        product_id = r.product_id;
      } in
      validate_found merchant_id r (find (is_line_at pid r.attr_set_seq r.time_issued) ls)

  -- The results of the lines, or the errors of those that fail.
  abbrev pub collect :
      {A : Type 0}
      → Result (RefundModelError T D) A
      → Result (List (RefundModelError T D)) (List A)
      → Result (List (RefundModelError T D)) (List A)
  collect (ok a) (ok xs) = ok (a ∷ xs)
  collect (ok a) (err es) = err es
  collect (err e) (ok xs) = err (e ∷ [])
  collect (err e) (err es) = err (e ∷ es)

  -- `OrderRefundModel::validate`
  unfoldable pub validate :
      List (OLineRefundModel T D)
      → ℕ
      → List (RefundCompletionOlineReqDto T)
      → Result (List (RefundModelError T D)) (List (ℕ × ℕ × T × ℕ × D))
  validate ls merchant_id [] = ok []
  validate ls merchant_id (r ∷ rs) =
      collect (validate_line ls merchant_id r) (validate ls merchant_id rs)

  -- What `update` does to one line: both `accumulate`.
  abbrev pub accumulate_line :
      RefundLineReqResolutionModel T D → OLineRefundModel T D → Outcome (OLineRefundModel T D)
  accumulate_line m v =
      assert (d.eq v.amount_aprv.unit m.amount.accumulated_paid.unit)
      >> returned (record v {
        amount_aprv = record v.amount_aprv {
          qty = add32 v.amount_aprv.qty m.amount.curr_round.qty;
          total = d.add v.amount_aprv.total m.amount.curr_round.total;
        };
        rejected_ = accumulate m.qty_reject v.rejected_;
      })

  abbrev pub update_line :
      OLineRefundModel T D
      → Option (RefundLineReqResolutionModel T D)
      → Outcome (OLineRefundModel T D × ℕ)
  update_line v none = returned (v, 0)
  update_line v (some m) = accumulate_line m v >>= λ v'. returned (v', 1)

  -- `OrderRefundModel::update`, with the number of lines that it changes
  unfoldable pub update :
      List (OLineRefundModel T D)
      → List (RefundLineReqResolutionModel T D)
      → Outcome (List (OLineRefundModel T D) × ℕ)
  update [] ms = returned ([], 0)
  update (v ∷ vs) ms = update_line v (find (is_resolution_at v) ms) >>= λ head.
      update vs ms >>= λ rest. returned (head.0 ∷ rest.0, head.1 + rest.1)
