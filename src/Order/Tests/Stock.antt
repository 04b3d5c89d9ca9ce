-- ===== src/Order/Tests/Stock.antt =====
-- Runs on stock: two items of the product 3 with different expiry, and one of the product 4.
use e_commerce.Common.{
  ℕ, ◌+◌, ◌-◌, ◌≡◌, ◌↔◌, refl, str_eq_iff, false, none, some, [], ◌∷◌, min, arith, u32_mod,
}
use e_commerce.Common.Int.{ℤ, pos, negsuc}
use e_commerce.Common.Chrono.{Millis, millis_chrono}
use e_commerce.Order.Dto.{InventoryEditStockLevelDto}
use e_commerce.Order.Tests.{line}
use e_commerce.Order.Stock.Quantity.{
  StockQuantityModel, IsValid, num_avail, reserve, reserve_foreign,
}
use e_commerce.Order.Stock.Store.{
  ProductStockModel, StoreStockModel, try_reserve, return_across_expiry,
}
use e_commerce.Order.Stock.Store.Sums.{AreSound}
use e_commerce.Order.Stock.Store.Reserve.{Reserves, try_reserve-Reserves}
use e_commerce.Order.Stock.Store.Return.{Returns, return_across_expiry-Returns}
use e_commerce.Order.Stock.Level.{
  adjust, initial, is_edited, update_products, update, sort_by, expires_before,
}
use e_commerce.Order.Stock.Level as Level
use e_commerce.Order.Stock.Level.Update.{
  IsCancelling, IsEdited, update_products-none_iff, cancel_oversells, Adds, update-Adds,
}
use e_commerce.Order.Stock.Level.Return.{GivesBackAll, return_across_expiry-GivesBackAll}
use e_commerce.Order.Stock.Store.RoundTrip.{Restores, try_reserve-Restores}
use e_commerce.Order.Line.Payment.{stock_to_return}
use e_commerce.Common.{add32, sub32, All}
use e_commerce.Order.Stock.Store.{dry_reserve, take_stock}
use e_commerce.Order.Stock.Level.Reserve.{BooksAll, try_reserve-BooksAll}

abbrev quantity : ℕ → ℕ → ℕ → StockQuantityModel
quantity total booked hold = record {
  total = total;
  cancelled = 0;
  booked = booked;
  rsv_detail = some (record { oid = "a1"; reserved = hold });
}

abbrev item : ℕ → Millis → StockQuantityModel → ProductStockModel Millis
item pid expiry q = record { id_ = pid; expiry = expiry; quantity = q; is_create = false }

-- 5 of 9 free, 3 of 4 free, all of 6 free
abbrev pub store : StoreStockModel Millis
store = record {
  store_id = 7;
  products =
      item 3 500_000 (quantity 9 4 2)
      ∷ item 3 800_000 (quantity 4 1 1)
      ∷ item 4 500_000 (record { total = 6; cancelled = 0; booked = 0; rsv_detail = none })
      ∷ [];
}

store-AreSound : AreSound "a1" store.products
store-AreSound = ground arith

quantity-IsValid : IsValid (quantity 9 4 2)
quantity-IsValid = ground arith

abbrev edit : ℤ → InventoryEditStockLevelDto Millis
edit n = record { qty_add = n; store_id = 7; product_id = 3; expiry = 500_000 }

reserve_foreign_example : reserve "b2" 8 (quantity 9 4 2) ≡ (quantity 9 4 2, 0)
reserve_foreign_example =
    reserve_foreign "b2" 8 (quantity 9 4 2) (record { oid = "a1"; reserved = 2 }) refl
      (λ e. ground (arith, (str_eq_iff "a1" "b2"), e))

try_reserve-Reserves_example :
    Reserves "a1" (line 3 7 0) store (try_reserve "a1" (line 3 7 0) store)
try_reserve-Reserves_example =
    try_reserve-Reserves "a1" (line 3 7 0) store (omega arith) (omega arith) store-AreSound

try_reserve-BooksAll_example :
    BooksAll "a1"
      (line 3 7 0 ∷ line 4 8 0 ∷ [])
      (store ∷ [])
      7
      3
      (Level.try_reserve "a1" (line 3 7 0 ∷ line 4 8 0 ∷ []) (store ∷ []))
try_reserve-BooksAll_example =
    try_reserve-BooksAll "a1" (line 3 7 0 ∷ line 4 8 0 ∷ []) (store ∷ []) 7 3 (ground arith)
      (store-AreSound, tt)

return_across_expiry-Returns_example :
    Returns "a1" 3 (edit (pos 3)) store (return_across_expiry (edit (pos 3)) store)
return_across_expiry-Returns_example =
    return_across_expiry-Returns "a1" 3 (edit (pos 3)) store refl (omega arith) (omega arith)
      store-AreSound

update-Adds_example :
    Adds 0 12 (store ∷ []) (update (edit (pos 5) ∷ edit (pos 7) ∷ []) (store ∷ []))
update-Adds_example =
    update-Adds (edit (pos 5) ∷ edit (pos 7) ∷ []) (store ∷ []) (refl, (refl, tt)) (omega arith)
      (ground arith)

cancel_oversells_example : num_avail (adjust (negsuc 6) (quantity 9 4 2)) + (min 9 7 - 5) ≡ u32_mod
cancel_oversells_example = cancel_oversells 6 (quantity 9 4 2) quantity-IsValid (omega arith)

abbrev cancel_other : InventoryEditStockLevelDto Millis
cancel_other = record (edit (negsuc 1)) { expiry = 700_000 }

update_products-none_iff_example :
    (update_products cancel_other store.products ≡ none)
    ↔ (IsCancelling cancel_other × All (λ p. ¬ IsEdited cancel_other p) store.products)
update_products-none_iff_example = update_products-none_iff cancel_other store.products

return_across_expiry-GivesBackAll_example :
    GivesBackAll "a1"
      (edit (pos 2) ∷ edit (pos 5) ∷ [])
      (store ∷ [])
      7
      3
      (Level.return_across_expiry (edit (pos 2) ∷ edit (pos 5) ∷ []) (store ∷ []))
return_across_expiry-GivesBackAll_example =
    return_across_expiry-GivesBackAll "a1" (edit (pos 2) ∷ edit (pos 5) ∷ []) (store ∷ []) 7 3
      (ground arith) (store-AreSound, tt)

-- The store after 7 pieces of the product 3 are reserved.
abbrev reserved_store : StoreStockModel Millis
reserved_store = record {
  store_id = 7;
  products =
      item 3 500_000 (quantity 9 9 7)
      ∷ item 3 800_000 (quantity 4 3 3)
      ∷ item 4 500_000 (record { total = 6; cancelled = 0; booked = 0; rsv_detail = none })
      ∷ [];
}

abbrev unpaid : InventoryEditStockLevelDto Millis
unpaid = record { qty_add = pos 5; store_id = 7; product_id = 3; expiry = 60_000 }

try_reserve-Restores_example : Restores "a1" 3 2 store (return_across_expiry unpaid reserved_store)
unfolding try_reserve dry_reserve take_stock reserve num_avail stock_to_return add32 sub32
try_reserve-Restores_example =
    try_reserve-Restores "a1" (line 3 7 0) (line 3 7 2) store reserved_store unpaid store-AreSound
      refl refl refl (omega arith) (omega arith) refl
