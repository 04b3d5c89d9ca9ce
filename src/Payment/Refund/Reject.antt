-- ===== src/Payment/Refund/Reject.antt =====
-- Rejected quantities by reason: `RefundLineQtyRejectModel` of
-- services/payment/src/model/refund.rs.
use e_commerce.Common.{
  ℕ, ◌+◌, ◌-◌, ◌≤◌, ◌<◌, ◌≡◌, Option, none, some, min, arith, ltb, if◌then◌else◌, add32, sub32,
  u32_mod, add32-eq,
}

-- A hash map from the two reasons to numbers; a key may be missing.
pub record RejectMap : Type 0 where
  pub damaged : Option ℕ
  pub fraudulent : Option ℕ

-- `Default`
abbrev pub default_reject : RejectMap
default_reject = record { damaged = some 0; fraudulent = some 0 }

abbrev pub count : Option ℕ → ℕ
count none = 0
count (some n) = n

-- `values().sum()` on `u32`
unfoldable pub total_qty : RejectMap → ℕ
total_qty m = add32 (count m.damaged) (count m.fraudulent)

-- One key of `build_and_reduce`: its number, and what is still to reduce.
abbrev pub reduce_key : Option ℕ → ℕ → Option ℕ × ℕ
reduce_key none tot = (none, tot)
reduce_key (some n) tot =
    let r = min n tot in if ltb 0 n then (some (sub32 n r), sub32 tot r) else (some n, tot)

unfoldable pub build_and_reduce : RejectMap → ℕ → RejectMap
build_and_reduce req tot_num_reduce =
    let (damaged', tot1) = reduce_key req.damaged tot_num_reduce in
    let (fraudulent', tot2) = reduce_key req.fraudulent tot1 in
    record { damaged = damaged'; fraudulent = fraudulent' }

-- `accumulate`: a reason that the target does not know is dropped.
abbrev pub add_count : Option ℕ → Option ℕ → Option ℕ
add_count src none = none
add_count none (some n) = some n
add_count (some v) (some n) = some (add32 n v)

unfoldable pub accumulate : RejectMap → RejectMap → RejectMap
accumulate src dst = record {
  damaged = add_count src.damaged dst.damaged;
  fraudulent = add_count src.fraudulent dst.fraudulent;
}

-- The rejected items, without the wrap of `total_qty`.
abbrev pub rejected : RejectMap → ℕ
rejected m = count m.damaged + count m.fraudulent

pub total_qty-eq : (m : RejectMap) → rejected m < u32_mod → total_qty m ≡ rejected m
unfolding total_qty
total_qty-eq m h = add32-eq (count m.damaged) (count m.fraudulent) h

-- Where the rejected pieces and the number fit a u32, reducing takes just that number away, as far
-- as there is one to take, and from no reason more than it has.
pub build_and_reduce_lem :
    (m : RejectMap) (k : ℕ)
    → rejected m < u32_mod
    → k < u32_mod
    → let m' = build_and_reduce m k in
      (rejected m' ≡ rejected m - k)
      × (count m'.damaged ≤ count m.damaged)
      × (count m'.fraudulent ≤ count m.fraudulent)
unfolding build_and_reduce sub32
build_and_reduce_lem m k h hk = ground arith
