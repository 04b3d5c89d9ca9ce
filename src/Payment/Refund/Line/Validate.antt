-- ===== src/Payment/Refund/Line/Validate.antt =====
-- What a completion request that passes the validation is known to keep.
use e_commerce.Common.{
  ℕ, ◌+◌, ◌≤◌, ◌≡◌, refl, Bool, false, Option, none, some, List, [], ◌∷◌, arith, All, find, length,
  is_empty,
}
use e_commerce.Common.Chrono.{Chrono}
use e_commerce.Common.Outcome.{Result, ok, err}
use e_commerce.Order.Line.{BaseProductIdentity}
use e_commerce.Common.Decimal.{Decimal}
use e_commerce.Payment.Refund.Resolve.{RefundCompletionOlineReqDto}
use e_commerce.Payment.Refund.Resolve.Bounds.{FitsWord}
use e_commerce.Payment.Refund.Line.{
  OLineRefundModel, RefundModelError, estimate_remain_quantity, estimate_remain_amount,
  estimate_remains, is_line_at, validate_line, validate_found, validate, collect,
}
use e_commerce.Payment.Refund.Line.Bounds.{
  handled, asked, IsWithin, Estimates, estimate_remain_quantity-Estimates,
}

-- The product that a request of a merchant names.
abbrev pub id_of : {T : Type 0} → ℕ → RefundCompletionOlineReqDto T → BaseProductIdentity
id_of merchant_id r = record { store_id = merchant_id; product_id = r.product_id }

module _ {T D : Type 0} ⦃c : Chrono T⦄ where
  -- There is a refund line of the merchant for the request, and it has room for what it settles.
  abbrev HasRoom : RefundCompletionOlineReqDto T → Option (OLineRefundModel T D) → Type 0
  HasRoom r none = ⊥
  HasRoom r (some v) = handled v + asked r ≤ v.amount_req.qty

  abbrev pub IsCovered : List (OLineRefundModel T D) → ℕ → RefundCompletionOlineReqDto T → Type 0
  IsCovered ls merchant_id r =
      HasRoom r (find (is_line_at (id_of merchant_id r) r.attr_set_seq r.time_issued) ls)

  abbrev CoversLine :
      RefundCompletionOlineReqDto T
      → Option (OLineRefundModel T D)
      → Result (RefundModelError T D) (ℕ × ℕ × T × ℕ × D)
      → Type 0
  CoversLine r o (err e) = Unit
  CoversLine r o (ok x) = HasRoom r o

  abbrev Covers :
      List (OLineRefundModel T D)
      → ℕ
      → RefundCompletionOlineReqDto T
      → Result (RefundModelError T D) (ℕ × ℕ × T × ℕ × D)
      → Type 0
  Covers ls merchant_id r x =
      CoversLine r (find (is_line_at (id_of merchant_id r) r.attr_set_seq r.time_issued) ls) x

  find-IsWithin :
      (p : OLineRefundModel T D → Bool) (ls : List (OLineRefundModel T D))
      {v : OLineRefundModel T D}
      → All IsWithin ls
      → find p ls ≡ some v
      → IsWithin v
  find-IsWithin p [] h e = cc
  find-IsWithin p (l ∷ ls) {v} (h, hs) e = ground (arith, find-IsWithin p ls {v = v} hs)

  -- How the validation ends.
  abbrev pub Validates :
      List (OLineRefundModel T D)
      → ℕ
      → List (RefundCompletionOlineReqDto T)
      → Result (List (RefundModelError T D)) (List (ℕ × ℕ × T × ℕ × D))
      → Type 0
  Validates ls merchant_id rs (err es) = (is_empty es ≡ false) × (length es ≤ length rs)
  Validates ls merchant_id rs (ok xs) = All (IsCovered ls merchant_id) rs × (length xs ≡ length rs)

module _ {T D : Type 0} ⦃c : Chrono T⦄ ⦃d : Decimal D⦄ where
  validate_found-CoversLine :
      (merchant_id : ℕ) (r : RefundCompletionOlineReqDto T) (v : OLineRefundModel T D)
      → IsWithin v
      → FitsWord r
      → CoversLine r (some v) (validate_found merchant_id r (some v))
  unfolding estimate_remains
  validate_found-CoversLine merchant_id r v w f =
      go (estimate_remain_quantity v r) (estimate_remain_amount v r) refl refl
        (estimate_remain_quantity-Estimates v r w f)
    where
      go :
          (q : Result (RefundModelError T D) ℕ) (a : Result (RefundModelError T D) D)
          → estimate_remain_quantity v r ≡ q
          → estimate_remain_amount v r ≡ a
          → Estimates v r q
          → CoversLine r (some v) (validate_found merchant_id r (some v))
      go (err e) a hq ha h = rw hq tt
      go (ok n) (err e) hq ha h = rw (hq, ha) tt
      go (ok n) (ok a) hq ha h = rw (hq, ha) (omega (arith, h))

  validate_line-Covers :
      (ls : List (OLineRefundModel T D)) (merchant_id : ℕ) (r : RefundCompletionOlineReqDto T)
      → All IsWithin ls
      → FitsWord r
      → Covers ls merchant_id r (validate_line ls merchant_id r)
  unfolding validate_line
  validate_line-Covers ls merchant_id r w f =
      go (find (is_line_at (id_of merchant_id r) r.attr_set_seq r.time_issued) ls) refl
    where
      go :
          (o : Option (OLineRefundModel T D))
          → find (is_line_at (id_of merchant_id r) r.attr_set_seq r.time_issued) ls ≡ o
          → CoversLine r o (validate_found merchant_id r o)
      go none e = tt
      go (some v) e =
          validate_found-CoversLine merchant_id r v
            (find-IsWithin (is_line_at (id_of merchant_id r) r.attr_set_seq r.time_issued) ls w e) f

  collect-Validates :
      (ls : List (OLineRefundModel T D)) (merchant_id : ℕ) (r : RefundCompletionOlineReqDto T)
      (rs : List (RefundCompletionOlineReqDto T))
      (x : Result (RefundModelError T D) (ℕ × ℕ × T × ℕ × D))
      (xs : Result (List (RefundModelError T D)) (List (ℕ × ℕ × T × ℕ × D)))
      → Covers ls merchant_id r x
      → Validates ls merchant_id rs xs
      → Validates ls merchant_id (r ∷ rs) (collect x xs)
  collect-Validates ls merchant_id r rs (ok x) (ok xs) h (hs, n) = ((h, hs), omega (arith, n))
  collect-Validates ls merchant_id r rs (ok x) (err es) h (e, n) = (e, omega (arith, n))
  collect-Validates ls merchant_id r rs (err e) (ok xs) h (hs, n) = (refl, omega arith)
  collect-Validates ls merchant_id r rs (err e) (err es) h (i, n) = (refl, omega (arith, n))

  -- For refund lines that are within their requests, and completion requests with numbers that fit
  -- a u32: a validation that passes gives one result for each request, and each request has a line
  -- of the merchant with room for all that it approves and rejects. A validation that fails gives
  -- at least one error, and at most one for each request.
  pub validate-Validates :
      (ls : List (OLineRefundModel T D)) (merchant_id : ℕ)
      (rs : List (RefundCompletionOlineReqDto T))
      → All IsWithin ls
      → All FitsWord rs
      → Validates ls merchant_id rs (validate ls merchant_id rs)
  unfolding validate
  validate-Validates ls merchant_id [] w f = (tt, refl)
  validate-Validates ls merchant_id (r ∷ rs) w (f, fs) =
      collect-Validates ls merchant_id r rs (validate_line ls merchant_id r)
        (validate ls merchant_id rs) (validate_line-Covers ls merchant_id r w f)
        (validate-Validates ls merchant_id rs w fs)
