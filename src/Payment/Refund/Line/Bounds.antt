-- ===== src/Payment/Refund/Line/Bounds.antt =====
-- No more items of a refund line are approved and rejected than the buyer asks to refund.
use e_commerce.Common.{
  ℕ, ◌+◌, ◌≤◌, ◌<◌, ◌≡◌, ◌≢◌, refl, true, Option, none, some, List, [], ◌∷◌, String, All, find,
  sum_of, arith, u32_mod, add32, Option-cases, inl, inr,
}
use e_commerce.Common.Chrono.{Chrono}
use e_commerce.Common.Outcome.{Outcome, returned, panicked, Result, ok, err}
use e_commerce.Common.Decimal.{Decimal}
use e_commerce.Payment.Charge.Line.{ChargeLineBuyerModel}
use e_commerce.Payment.Refund.Reject.{total_qty-eq, rejected, accumulate}
use e_commerce.Payment.Refund.Resolve.{
  RefundCompletionOlineReqDto, RefundLineReqResolutionModel, Remain, resolve_one,
}
use e_commerce.Payment.Refund.Resolve.Bounds.{settled, FitsWord, resolve_one_lem}
use e_commerce.Payment.Refund.Line.{
  OLineRefundModel, RefundModelError, OrderLineReplicaRefundDto, try_from, estimate_remain_quantity,
  is_resolution_at, accumulate_line, update_line, update,
}

-- The items of the line that are settled already.
abbrev pub handled : {T D : Type 0} → OLineRefundModel T D → ℕ
handled v = v.amount_aprv.qty + rejected v.rejected_

-- No more items are settled than asked for, and each reason to reject has its counter.
abbrev pub IsWithin : {T D : Type 0} → OLineRefundModel T D → Type 0
IsWithin v =
    (handled v ≤ v.amount_req.qty)
    × (v.amount_req.qty < u32_mod)
    × (v.rejected_.damaged ≢ none)
    × (v.rejected_.fraudulent ≢ none)

-- The items that a completion request settles.
abbrev pub asked : {T : Type 0} → RefundCompletionOlineReqDto T → ℕ
asked r = r.approval.quantity + rejected r.reject

-- What an estimate tells.
abbrev pub Estimates :
    {T D : Type 0}
    → OLineRefundModel T D
    → RefundCompletionOlineReqDto T
    → Result (RefundModelError T D) ℕ
    → Type 0
Estimates v r (ok n) = handled v + asked r + n ≡ v.amount_req.qty
Estimates v r (err e) = v.amount_req.qty < handled v + asked r

-- A new line, if there is one, has nothing settled.
abbrev pub IsNew :
    {T D : Type 0}
    → OrderLineReplicaRefundDto
    → Result (RefundModelError T D) (OLineRefundModel T D)
    → Type 0
IsNew dto (err e) = Unit
IsNew dto (ok v) = (handled v ≡ 0) × (v.amount_req.qty ≡ dto.qty) × IsWithin v

-- The line afterwards, when `k` items of it were settled.
abbrev pub Settled :
    {T D : Type 0} → OLineRefundModel T D → ℕ → Outcome (OLineRefundModel T D) → Type 0
Settled v k panicked = ⊥
Settled v k (returned v') =
    IsWithin v'
    × (handled v' ≡ handled v + k)
    × (v'.pid ≡ v.pid)
    × (v'.attr_set_seq ≡ v.attr_set_seq)
    × (v'.amount_req ≡ v.amount_req)

-- What `update` finds for a line, and the items that it settles.
abbrev pub granted :
    {T D : Type 0} ⦃c : Chrono T⦄
    → List (RefundLineReqResolutionModel T D)
    → OLineRefundModel T D
    → Option (RefundLineReqResolutionModel T D)
granted ms v = find (is_resolution_at v) ms

abbrev pub granted_qty : {T D : Type 0} → Option (RefundLineReqResolutionModel T D) → ℕ
granted_qty none = 0
granted_qty (some m) = settled m

abbrev pub is_granted : {T D : Type 0} → Option (RefundLineReqResolutionModel T D) → ℕ
is_granted none = 0
is_granted (some m) = 1

-- The line and the count that one step of `update` returns.
abbrev pub SettlesLine :
    {T D : Type 0}
    → OLineRefundModel T D
    → Option (RefundLineReqResolutionModel T D)
    → Outcome (OLineRefundModel T D × ℕ)
    → Type 0
SettlesLine v o panicked = ⊥
SettlesLine v o (returned (v', n)) =
    IsWithin v' × (handled v' ≡ handled v + granted_qty o) × (n ≡ is_granted o)

-- The resolution that `update` finds for a line is of the same unit price, and fits what is open.
abbrev pub Fits :
    {T D : Type 0} ⦃d : Decimal D⦄
    → OLineRefundModel T D
    → Option (RefundLineReqResolutionModel T D)
    → Type 0
Fits v none = Unit
Fits ⦃d⦄ v (some m) =
    (d.eq v.amount_aprv.unit m.amount.accumulated_paid.unit ≡ true)
    × (handled v + settled m ≤ v.amount_req.qty)

-- The lines afterwards, when `update` was given the resolutions `ms`.
abbrev pub Updates :
    {T D : Type 0} ⦃c : Chrono T⦄
    → List (RefundLineReqResolutionModel T D)
    → List (OLineRefundModel T D)
    → Outcome (List (OLineRefundModel T D) × ℕ)
    → Type 0
Updates ms vs panicked = ⊥
Updates ms vs (returned (vs', n)) =
    All IsWithin vs'
    × (sum_of handled vs' ≡ sum_of handled vs + sum_of (λ v. granted_qty (granted ms v)) vs)
    × (n ≡ sum_of (λ v. is_granted (granted ms v)) vs)

module _ {T : Type 0} ⦃c : Chrono T⦄ where
  -- A refund line that is read from a request of the order service, with a quantity that fits a
  -- u32, has nothing settled and is within what was requested.
  pub try_from-IsNew :
      (D : Type 0) ⦃d : Decimal D⦄ (parse_time : String → Option T)
      (dto : OrderLineReplicaRefundDto)
      → dto.qty < u32_mod
      → IsNew {D = D} dto (try_from parse_time dto)
  unfolding try_from
  try_from-IsNew D ⦃d⦄ parse_time dto h = elim (Option-cases (parse_time dto.create_time)) [
    | inl no_time ↦ ground arith
    | inr (t, time_req) ↦ elim (Option-cases (d.of_str dto.amount.unit)) [
      | inl no_unit ↦ ground arith
      | inr (u, unit) ↦ elim (Option-cases (d.of_str dto.amount.total)) [
        | inl no_total ↦ ground arith
        | inr (a, total) ↦ ground arith
      ]
    ]
  ]

module _ {T D : Type 0} ⦃c : Chrono T⦄ ⦃d : Decimal D⦄ where
  -- For a refund line that is within its request, and a completion request with numbers that fit a
  -- u32, the estimate is the requested pieces less those settled before and now; it fails just when
  -- they are not enough.
  pub estimate_remain_quantity-Estimates :
      (v : OLineRefundModel T D) (r : RefundCompletionOlineReqDto T)
      → IsWithin v
      → FitsWord r
      → Estimates v r (estimate_remain_quantity v r)
  unfolding estimate_remain_quantity
  estimate_remain_quantity-Estimates v r w f =
      ground (arith, total_qty-eq r.reject, total_qty-eq v.rejected_)

  accumulate_line_lem :
      (m : RefundLineReqResolutionModel T D) (v : OLineRefundModel T D)
      → IsWithin v
      → Fits v (some m)
      → Settled v (settled m) (accumulate_line m v)
  unfolding accumulate add32
  accumulate_line_lem m v w f = ground arith

  resolve_one_unit :
      (b : ChargeLineBuyerModel D) (r : RefundCompletionOlineReqDto T) (amt : D) (remain : Remain D)
      → (resolve_one b r amt remain).1.amount.accumulated_paid.unit ≡ b.amount_refunded.unit
  unfolding resolve_one
  resolve_one_unit b r amt remain = refl

  -- A refund line that the estimate accepts for a completion request stays within what was
  -- requested when the resolution of the same request, made from a charge of the same unit price,
  -- is added to it: it does not panic, and just the resolved pieces are settled.
  pub accumulate_line-IsWithin :
      (v : OLineRefundModel T D) (r : RefundCompletionOlineReqDto T) (b : ChargeLineBuyerModel D)
      (amt : D) (remain : Remain D) (n : ℕ)
      → IsWithin v
      → FitsWord r
      → remain.qty < u32_mod
      → d.eq v.amount_aprv.unit b.amount_refunded.unit ≡ true
      → estimate_remain_quantity v r ≡ ok n
      → let m = (resolve_one b r amt remain).1 in Settled v (settled m) (accumulate_line m v)
  accumulate_line-IsWithin v r b amt remain n w f h e ok_n =
      let m = (resolve_one b r amt remain).1 in
      let open_ = estimate_remain_quantity-Estimates v r w f in
      let fits : handled v + settled m ≤ v.amount_req.qty =
        ground (arith, open_, resolve_one_lem b r amt remain h f) in
      let same_unit : d.eq v.amount_aprv.unit m.amount.accumulated_paid.unit ≡ true =
        rw (resolve_one_unit b r amt remain) e in
      accumulate_line_lem m v w (same_unit, fits)

  update_line_lem :
      (v : OLineRefundModel T D) (o : Option (RefundLineReqResolutionModel T D))
      → IsWithin v
      → Fits v o
      → SettlesLine v o (update_line v o)
  update_line_lem v none w f = ground arith
  update_line_lem v (some m) w f = ground (arith, accumulate_line_lem m v w f)

  -- Where each resolution that is found for a refund line has its unit price and fits what is open
  -- on it, the update never panics, no line has more pieces approved and rejected than requested
  -- afterwards, the settled pieces grow by those of the resolutions found, and the result counts
  -- the lines that have one.
  pub update-Updates :
      (ms : List (RefundLineReqResolutionModel T D)) (vs : List (OLineRefundModel T D))
      → All IsWithin vs
      → All (λ v. Fits v (granted ms v)) vs
      → Updates ms vs (update vs ms)
  unfolding update
  update-Updates ms [] w f = ground arith
  update-Updates ms (v ∷ vs) (w, ws) (f, fs) =
      ground (arith, update_line_lem v (granted ms v) w f, update-Updates ms vs ws fs)
