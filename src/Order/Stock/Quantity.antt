-- ===== src/Order/Stock/Quantity.antt =====
-- One item of stock: `StockQuantityModel` of services/order/src/model/stock_level.rs.
use e_commerce.Common.{
  ℕ, ◌+◌, ◌-◌, ◌≤◌, ◌<◌, ◌≡◌, Option, none, some, String, min, arith, ltb, if◌then◌else◌, str_eq,
  str_eq_iff, Option-cases, inl, inr, u32_mod, add32, sub32,
}

pub record StockQtyRsvModel : Type 0 where
  pub oid : String
  pub reserved : ℕ

pub record StockQuantityModel : Type 0 where
  pub total : ℕ
  pub cancelled : ℕ
  pub booked : ℕ
  pub rsv_detail : Option StockQtyRsvModel

unfoldable pub num_avail : StockQuantityModel → ℕ
num_avail q = sub32 (sub32 q.total q.cancelled) q.booked

-- The `if let` of `reserve`: an order that holds nothing starts a detail, the order of the detail
-- adds to it, and any other order takes nothing.
abbrev pub hold : String → ℕ → Option StockQtyRsvModel → ℕ × Option StockQtyRsvModel
hold oid n none = (n, some (record { oid = oid; reserved = n }))
hold oid n (some r) =
    if str_eq r.oid oid then (n, some (record r { reserved = add32 r.reserved n })) else (0, some r)

-- The quantity afterwards, and the number that was taken.
unfoldable pub reserve : String → ℕ → StockQuantityModel → StockQuantityModel × ℕ
reserve oid num_req q =
    let n = min (num_avail q) num_req in
    let (taken, detail) = (if ltb 0 n then hold oid n q.rsv_detail else (n, q.rsv_detail)) in
    let booked' = (if ltb 0 taken then add32 q.booked taken else q.booked) in
    (record q { booked = booked'; rsv_detail = detail }, taken)

abbrev return_to : ℕ → StockQuantityModel → Option StockQtyRsvModel → StockQuantityModel × ℕ
return_to num_req q none = (q, 0)
return_to num_req q (some r) =
    let n = min r.reserved num_req in
    (
      record q {
        booked = sub32 q.booked n;
        rsv_detail = some (record r { reserved = sub32 r.reserved n });
      },
      n,
    )

unfoldable pub try_return : ℕ → StockQuantityModel → StockQuantityModel × ℕ
try_return num_req q = return_to num_req q q.rsv_detail

-- What an order detail holds.
abbrev pub held : Option StockQtyRsvModel → ℕ
held none = 0
held (some r) = r.reserved

-- No item is counted twice, and what the detail holds is booked.
pub record IsValid (q : StockQuantityModel) : Type 0 where
  pub total_lt : q.total < u32_mod
  pub within : q.cancelled + q.booked ≤ q.total
  pub counted : held q.rsv_detail ≤ q.booked

-- The stock that is free, without the wrap of `num_avail`.
abbrev pub free : StockQuantityModel → ℕ
free q = q.total - q.cancelled - q.booked

-- The detail is of the order `oid`, or there is none.
abbrev pub IsOwnedBy : String → Option StockQtyRsvModel → Type 0
IsOwnedBy oid none = Unit
IsOwnedBy oid (some r) = r.oid ≡ oid

pub num_avail-eq-free : (q : StockQuantityModel) → IsValid q → num_avail q ≡ free q
unfolding num_avail sub32
num_avail-eq-free q v = ground arith

-- On a sound item whose detail, if any, is of the order, a reservation takes what is free, up to
-- what is asked for; it books and records just that, and keeps the item sound.
pub reserve_lem :
    (oid : String) (n : ℕ) (q : StockQuantityModel)
    → IsValid q
    → IsOwnedBy oid q.rsv_detail
    → let (q', taken) = reserve oid n q in
      (taken ≡ min (free q) n)
      × IsValid q'
      × IsOwnedBy oid q'.rsv_detail
      × (q'.booked ≡ q.booked + taken)
      × (held q'.rsv_detail ≡ held q.rsv_detail + taken)
      × (q'.total ≡ q.total)
      × (q'.cancelled ≡ q.cancelled)
unfolding reserve num_avail add32 sub32
reserve_lem oid n q v o = elim (Option-cases q.rsv_detail) [
  | inl e ↦ ground arith
  | inr (r, e) ↦ ground (arith, str_eq_iff r.oid oid)
]

-- Another order's detail is never written over: then nothing is taken.
pub reserve_foreign :
    (oid : String) (n : ℕ) (q : StockQuantityModel) (r : StockQtyRsvModel)
    → q.rsv_detail ≡ some r
    → ¬ (r.oid ≡ oid)
    → reserve oid n q ≡ (q, 0)
unfolding reserve
reserve_foreign oid n q r e ne = ground (arith, str_eq_iff r.oid oid)

-- On a sound item a return gives back what the detail holds, up to what is asked for; the booked
-- pieces shrink by just that, and the item stays sound.
pub try_return_lem :
    (n : ℕ) (q : StockQuantityModel)
    → IsValid q
    → let (q', given) = try_return n q in
      (given ≡ min (held q.rsv_detail) n)
      × IsValid q'
      × (q'.booked + given ≡ q.booked)
      × (held q'.rsv_detail + given ≡ held q.rsv_detail)
      × (q'.total ≡ q.total)
      × (q'.cancelled ≡ q.cancelled)
unfolding try_return sub32
try_return_lem n q v = ground arith

pub try_return-IsOwnedBy :
    (oid : String) (n : ℕ) (q : StockQuantityModel)
    → IsOwnedBy oid q.rsv_detail
    → IsOwnedBy oid (try_return n q).0.rsv_detail
unfolding try_return
try_return-IsOwnedBy oid n q o = ground arith
