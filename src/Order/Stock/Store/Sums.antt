-- ===== src/Order/Stock/Store/Sums.antt =====
-- What a store holds of one product, over all its items, and which items are sound.
use e_commerce.Common.{ℕ, Bool, List, [], ◌∷◌, ◌==◌, if◌then◌else◌, sum_of, String, All}
use e_commerce.Order.Stock.Quantity.{StockQuantityModel, IsValid, IsOwnedBy, free, held}
use e_commerce.Order.Stock.Store.{ProductStockModel}

module _ {T : Type 0} where
  abbrev pub of_product : (StockQuantityModel → ℕ) → ℕ → ProductStockModel T → ℕ
  of_product f pid p = if p.id_ == pid then f p.quantity else 0

  -- Of all items of the product `pid`: what is free, what is booked, and what the current order's
  -- details hold.
  abbrev pub free_of : ℕ → List (ProductStockModel T) → ℕ
  free_of pid = sum_of (of_product free pid)

  abbrev pub booked_of : ℕ → List (ProductStockModel T) → ℕ
  booked_of pid = sum_of (of_product (λ q. q.booked) pid)

  abbrev pub held_of : ℕ → List (ProductStockModel T) → ℕ
  held_of pid = sum_of (of_product (λ q. held q.rsv_detail) pid)

  -- Each item counts nothing twice, and its detail is of the order `oid`, if it has one.
  abbrev pub IsSoundItem : String → ProductStockModel T → Type 0
  IsSoundItem oid p = IsValid p.quantity × IsOwnedBy oid p.quantity.rsv_detail

  abbrev pub AreSound : String → List (ProductStockModel T) → Type 0
  AreSound oid = All (IsSoundItem oid)

  -- All of an item but its bookings.
  abbrev pub fixed_part : ProductStockModel T → ℕ × T × ℕ × ℕ × Bool
  fixed_part p = (p.id_, p.expiry, p.quantity.total, p.quantity.cancelled, p.is_create)

  -- The items of the other products.
  abbrev pub others : ℕ → List (ProductStockModel T) → List (ProductStockModel T)
  others pid [] = []
  others pid (p ∷ ps) = if p.id_ == pid then others pid ps else p ∷ others pid ps
