-- ===== src/Payment/Charge/RefundMap/Bounds.antt =====
-- The pieces that the merged rounds leave at a line of the charge.
use e_commerce.Common.{
  ℕ, ◌+◌, ◌<◌, ◌≡◌, false, Option, none, some, List, [], ◌∷◌, arith, All, if◌then◌else◌, u32_mod,
  add32, Bool-cases, inl, inr,
}
use e_commerce.Common.Decimal.{Decimal}
use e_commerce.Payment.Refund.Reject.{total_qty-eq}
use e_commerce.Payment.Refund.Resolve.{RefundLineReqResolutionModel}
use e_commerce.Payment.Refund.Resolve.Bounds.{settled}
use e_commerce.Payment.Charge.RefundMap.{
  RefundLineKey, RefundEntry, ChargeRefundLineMap, same_key, line_key, entry_of, merge_line, merge,
}

-- The pieces of an entry, or those of the earlier rounds if there is none.
abbrev pub pieces_of : {D : Type 0} → ℕ → Option (RefundEntry D) → ℕ
pieces_of start none = start
pieces_of start (some e) = e.amount.qty + e.num_rejected

-- What the resolutions of one line settle.
abbrev pub settled_of : {T D : Type 0} → RefundLineKey → List (RefundLineReqResolutionModel T D) → ℕ
settled_of k [] = 0
settled_of k (m ∷ ms) =
    let rest = settled_of k ms in if same_key (line_key m) k then settled m + rest else rest

-- The earlier rounds of the line `k` settled `start` pieces.
abbrev pub StartsAt : {T D : Type 0} → RefundLineKey → ℕ → RefundLineReqResolutionModel T D → Type 0
StartsAt k start m =
    (if same_key (line_key m) k
      then m.amount.accumulated_paid.qty + m.amount.accumulated_rejected
      else start)
    ≡ start

module _ {T D : Type 0} ⦃d : Decimal D⦄ where
  merge_line-pieces_of :
      (k : RefundLineKey) (start : ℕ) (m : RefundLineReqResolutionModel T D)
      (es : ChargeRefundLineMap D)
      → StartsAt k start m
      → pieces_of start (entry_of k es) + settled m < u32_mod
      → pieces_of start (entry_of k (merge_line m es)) ≡ (
          if same_key (line_key m) k
          then pieces_of start (entry_of k es) + settled m
          else pieces_of start (entry_of k es))
  unfolding merge_line add32
  merge_line-pieces_of k start m [] s h = ground (arith, total_qty-eq m.qty_reject)
  merge_line-pieces_of k start m ((j, e) ∷ es) s h =
      ground (arith, total_qty-eq m.qty_reject, merge_line-pieces_of k start m es s)

  -- A resolution leaves the entries of the other lines alone.
  merge_line-others :
      (k : RefundLineKey) (m : RefundLineReqResolutionModel T D) (es : ChargeRefundLineMap D)
      → same_key (line_key m) k ≡ false
      → entry_of k (merge_line m es) ≡ entry_of k es
  unfolding merge_line
  merge_line-others k m [] o = ground arith
  merge_line-others k m ((j, e) ∷ es) o = ground (arith, merge_line-others k m es o)

  -- For a line of a charge whose resolutions all start from the same number of refunded and
  -- rejected pieces, merging them leaves at its entry the pieces of the entry before, or that
  -- number where there was none, with all that they settle, provided that the sum fits a u32.
  pub merge-pieces_of :
      (k : RefundLineKey) (start : ℕ) (es : ChargeRefundLineMap D)
      (ms : List (RefundLineReqResolutionModel T D))
      → All (StartsAt k start) ms
      → pieces_of start (entry_of k es) + settled_of k ms < u32_mod
      → pieces_of start (entry_of k (merge es ms))
        ≡ pieces_of start (entry_of k es) + settled_of k ms
  unfolding merge
  merge-pieces_of k start es [] s h = omega arith
  merge-pieces_of k start es (m ∷ ms) (s, ss) h = elim (Bool-cases (same_key (line_key m) k)) [
    | inl own ↦ ground (
      arith,
      own,
      merge_line-pieces_of k start m es s,
      merge-pieces_of k start (merge_line m es) ms ss,
    )
    | inr other ↦ ground (
      arith,
      other,
      merge_line-others k m es other,
      merge-pieces_of k start (merge_line m es) ms ss,
    )
  ]
