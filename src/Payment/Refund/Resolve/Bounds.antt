-- ===== src/Payment/Refund/Resolve/Bounds.antt =====
-- The resolutions of a charged line stay within what is left of it.
use e_commerce.Common.{
  ℕ, ◌+◌, ◌-◌, ◌≤◌, ◌<◌, ◌≡◌, ◌≢◌, refl, true, none, List, [], ◌∷◌, min, arith, if◌then◌else◌, All,
  sum_of, u32_mod, add32-eq, sub32-eq, Option-cases, inl, inr,
}
use e_commerce.Common.Outcome.{Outcome, returned, panicked, ◌>>=◌}
use e_commerce.Common.Decimal.{Decimal}
use e_commerce.Payment.Charge.Line.{ChargeLineBuyerModel, amount_remain}
use e_commerce.Payment.Refund.Reject.{
  total_qty-eq, rejected, build_and_reduce, build_and_reduce_lem,
}
use e_commerce.Payment.Refund.Resolve.{
  RefundCompletionOlineReqDto, RefundLineReqResolutionModel, Remain, resolve_one, resolve_from,
  push_resolution, total_qty_curr_round, to_vec, is_request_for,
}

-- The items that a resolution settles: approved and rejected ones.
abbrev pub settled : {T D : Type 0} → RefundLineReqResolutionModel T D → ℕ
settled m = rejected m.qty_reject + m.amount.curr_round.qty

-- The numbers of a request are words, and its rejected items add up to one.
abbrev pub FitsWord : {T : Type 0} → RefundCompletionOlineReqDto T → Type 0
FitsWord r = (rejected r.reject < u32_mod) × (r.approval.quantity < u32_mod)

module _ {T D : Type 0} ⦃d : Decimal D⦄ where
  -- One request settles no more than it asks for, and what it settles leaves the line.
  pub resolve_one_lem :
      (c : ChargeLineBuyerModel D) (r : RefundCompletionOlineReqDto T) (amt : D) (remain : Remain D)
      → remain.qty < u32_mod
      → FitsWord r
      → let (remain', m) = resolve_one c r amt remain in
        (remain'.qty + settled m ≡ remain.qty)
        × (settled m ≡ min remain.qty (r.approval.quantity + rejected r.reject))
        × (m.amount.curr_round.qty ≤ r.approval.quantity)
        × (rejected m.qty_reject ≤ rejected r.reject)
        × (total_qty_curr_round m ≡ settled m)
  unfolding resolve_one total_qty_curr_round
  resolve_one_lem c r amt remain h f =
      let m = min remain.qty r.approval.quantity in
      let left = remain.qty - m in
      let k = min left (rejected r.reject) in
      ground (
        arith,
        sub32-eq remain.qty m,
        sub32-eq left k,
        total_qty-eq r.reject f.0,
        sub32-eq (rejected r.reject) k,
        build_and_reduce_lem r.reject (rejected r.reject - k) f.0,
        total_qty-eq (build_and_reduce r.reject (rejected r.reject - k)),
        add32-eq k m,
      )

-- A number of the request is a decimal.
abbrev pub IsReadable :
    {T : Type 0} (D : Type 0) ⦃d : Decimal D⦄ → RefundCompletionOlineReqDto T → Type 0
IsReadable D ⦃d⦄ r = d.of_str r.approval.amount_total ≢ none

-- The items that the requests for a charged line ask for.
abbrev pub asked_for :
    {T D : Type 0} → ChargeLineBuyerModel D → List (RefundCompletionOlineReqDto T) → ℕ
asked_for c [] = 0
asked_for c (r ∷ rs) =
    let rest = asked_for c rs in
    if is_request_for c r then r.approval.quantity + rejected r.reject + rest else rest

-- The resolutions of a line settle `n` items, none of them nothing, and none of another line.
abbrev pub Settles :
    {T D : Type 0}
    → ChargeLineBuyerModel D
    → ℕ
    → Outcome (List (RefundLineReqResolutionModel T D))
    → Type 0
Settles c n panicked = ⊥
Settles c n (returned ms) =
    (sum_of settled ms ≡ n)
    × All (λ m. (0 < settled m) × (m.pid ≡ c.pid) × (m.attr_set_seq ≡ c.attr_set_seq)) ms

module _ {T D : Type 0} ⦃d : Decimal D⦄ where
  push_Settles :
      (c : ChargeLineBuyerModel D) (n : ℕ) (m : RefundLineReqResolutionModel T D)
      (o : Outcome (List (RefundLineReqResolutionModel T D)))
      → total_qty_curr_round m ≡ settled m
      → m.pid ≡ c.pid
      → m.attr_set_seq ≡ c.attr_set_seq
      → Settles c n o
      → Settles c (settled m + n) (o >>= λ ms. returned (push_resolution m ms))
  push_Settles c n m panicked e ep ea x = elim x [ ]
  push_Settles c n m (returned ms) e ep ea (es, al) = ground arith

  resolve_one_ids :
      (c : ChargeLineBuyerModel D) (r : RefundCompletionOlineReqDto T) (amt : D) (remain : Remain D)
      → let m = (resolve_one c r amt remain).1 in
        (m.pid ≡ c.pid) × (m.attr_set_seq ≡ c.attr_set_seq)
  unfolding resolve_one
  resolve_one_ids c r amt remain = (refl, refl)

  pub resolve_from-Settles :
      (c : ChargeLineBuyerModel D) (rs : List (RefundCompletionOlineReqDto T)) (remain : Remain D)
      → remain.qty < u32_mod
      → All FitsWord rs
      → All (IsReadable D) rs
      → Settles c (min remain.qty (asked_for c rs)) (resolve_from c rs remain)
  unfolding resolve_from
  resolve_from-Settles c [] remain h f g = ground arith
  resolve_from-Settles c (r ∷ rs) remain h (f, fs) (g, gs) =
      elim (Option-cases (d.of_str r.approval.amount_total)) [
        | inl e ↦ absurd (g e)
        | inr (amt, e) ↦
            let (remain', m) = resolve_one c r amt remain in
            let k = min remain'.qty (asked_for c rs) in
            ground (
              arith,
              resolve_one_lem c r amt remain h f,
              resolve_one_ids c r amt remain,
              push_Settles c k m (resolve_from c rs remain'),
              resolve_from-Settles c rs remain' _ fs gs,
              resolve_from-Settles c rs remain h fs gs,
            )
      ]

-- A charged line whose refunds and rejections do not exceed it together, at one unit price.
abbrev pub IsConsistent : {D : Type 0} ⦃d : Decimal D⦄ → ChargeLineBuyerModel D → Type 0
IsConsistent ⦃d⦄ c =
    (d.eq c.amount_orig.unit c.amount_refunded.unit ≡ true)
    × (c.amount_refunded.qty + c.num_rejected ≤ c.amount_orig.qty)
    × (c.amount_orig.qty < u32_mod)

module _ {D : Type 0} ⦃d : Decimal D⦄ where
  -- Such a line has all its items left that are neither refunded nor rejected.
  amount_remain_lem :
      (c : ChargeLineBuyerModel D)
      → IsConsistent c
      → amount_remain c
        ≡ returned (record {
          unit = c.amount_orig.unit;
          total =
              d.saturating_sub
                (d.saturating_sub c.amount_orig.total c.amount_refunded.total)
                (d.mul (d.of_u32 c.num_rejected) c.amount_orig.unit);
          qty = c.amount_orig.qty - c.amount_refunded.qty - c.num_rejected;
        })
  unfolding amount_remain
  amount_remain_lem c (e, le, h) = ground arith

module _ {T D : Type 0} ⦃d : Decimal D⦄ where
  -- For a charged line whose refunded and rejected pieces do not exceed the charged ones together,
  -- at one unit price, and completion requests with readable amounts and numbers that fit a u32,
  -- resolving them never panics. The resolutions settle, together, the smaller of what is left of
  -- the line and what the requests for the line ask for; each settles something, and is of that
  -- line.
  pub to_vec-Settles :
      (c : ChargeLineBuyerModel D) (rs : List (RefundCompletionOlineReqDto T))
      → IsConsistent c
      → All FitsWord rs
      → All (IsReadable D) rs
      → let left = c.amount_orig.qty - c.amount_refunded.qty - c.num_rejected in
        Settles c (min left (asked_for c rs)) (to_vec c rs)
  unfolding to_vec
  to_vec-Settles c rs v fs gs =
      let left = c.amount_orig.qty - c.amount_refunded.qty - c.num_rejected in
      let fits : left < u32_mod = omega arith in
      rw (amount_remain_lem c v) (resolve_from-Settles c rs _ fits fs gs)
