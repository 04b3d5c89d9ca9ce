-- ===== src/Order/Stock/Store/RoundTrip.antt =====
-- An order line that is reserved, and whose unpaid pieces are given back later.
use e_commerce.Common.{
  ℕ, ◌+◌, ◌-◌, ◌≤◌, ◌<◌, ◌≡◌, refl, Option, none, some, List, [], ◌∷◌, map, String, arith, sub32,
  sub32-eq,
}
use mathlib.Core.Path.{subst}
use e_commerce.Common.Int.{pos}
use e_commerce.Common.Outcome.{Outcome, returned, panicked}
use e_commerce.Order.Dto.{InventoryEditStockLevelDto, StockReturnErrorReason}
use e_commerce.Order.Line.{OrderLineModel, product_id}
use e_commerce.Order.Line.Payment.{stock_to_return}
use e_commerce.Order.Stock.Store.{
  ProductStockModel, StoreStockModel, take_stock, give_back, as_u32, try_reserve,
  return_across_expiry,
}
use e_commerce.Order.Stock.Quantity.{reserve, try_return}
use e_commerce.Order.Stock.Store.Sums.{AreSound, booked_of, held_of, others, fixed_part}
use e_commerce.Order.Stock.Store.Reserve.{Reserves, try_reserve-Reserves}
use e_commerce.Order.Stock.Store.Return.{Returns, return_across_expiry-Returns}

module _ {T : Type 0} where
  -- The stock `s` with `paid` pieces of the product booked and held more. The items of the other
  -- products are as before; those of the product may hold the pieces in another place.
  abbrev pub Restores :
      String
      → ℕ
      → ℕ
      → StoreStockModel T
      → Outcome (StoreStockModel T × Option StockReturnErrorReason)
      → Type 0
  Restores oid pid paid s panicked = ⊥
  Restores oid pid paid s (returned (s2, some e)) = ⊥
  Restores oid pid paid s (returned (s2, none)) =
      (s2.store_id ≡ s.store_id)
      × AreSound oid s2.products
      × (others pid s2.products ≡ others pid s.products)
      × (booked_of pid s2.products ≡ booked_of pid s.products + paid)
      × (held_of pid s2.products ≡ held_of pid s.products + paid)
      × (map fixed_part s2.products ≡ map fixed_part s.products)

  take_stock-others :
      (oid : String) (pid n : ℕ) (ps : List (ProductStockModel T))
      → others pid (take_stock oid pid n ps).0 ≡ others pid ps
  unfolding take_stock
  take_stock-others oid pid n [] = refl
  take_stock-others oid pid n (p ∷ ps) =
      let taken = (reserve oid n p.quantity).1 in
      ground (arith, take_stock-others oid pid (sub32 n taken) ps, take_stock-others oid pid n ps)

  give_back-others :
      (pid n : ℕ) (ps : List (ProductStockModel T))
      → others pid (give_back pid n ps).0 ≡ others pid ps
  unfolding give_back
  give_back-others pid n [] = refl
  give_back-others pid n (p ∷ ps) =
      let given = (try_return n p.quantity).1 in
      ground (arith, give_back-others pid (sub32 n given) ps, give_back-others pid n ps)

  try_reserve-others :
      (oid : String) (l : OrderLineModel T) (s s1 : StoreStockModel T)
      → try_reserve oid l s ≡ returned (s1, none)
      → others (product_id l.id_) s1.products ≡ others (product_id l.id_) s.products
  unfolding try_reserve
  try_reserve-others oid l s s1 h =
      ground (arith, take_stock-others oid (product_id l.id_) l.qty.reserved s.products)

  return_across_expiry-others :
      (req : InventoryEditStockLevelDto T) (s s2 : StoreStockModel T)
      → return_across_expiry req s ≡ returned (s2, none)
      → others req.product_id s2.products ≡ others req.product_id s.products
  unfolding return_across_expiry
  return_across_expiry-others req s s2 h =
      ground (arith, give_back-others req.product_id (as_u32 req.qty_add) s.products)

  -- What is given back is what is not paid.
  stock_to_return_lem :
      (m : OrderLineModel T) (d : InventoryEditStockLevelDto T)
      → m.qty.paid ≤ m.qty.reserved
      → m.qty.reserved < 2_147_483_648
      → stock_to_return m ≡ returned d
      → (d.qty_add ≡ pos (m.qty.reserved - m.qty.paid)) × (d.product_id ≡ product_id m.id_)
  unfolding stock_to_return
  stock_to_return_lem m d le h e = ground (arith, sub32-eq m.qty.reserved m.qty.paid)

  -- An order line is reserved at a store whose items are sound for the order; later, with fewer
  -- pieces paid than reserved and less than 2 ^ 31 of them, its stock is given back. This succeeds
  -- without an error. The store then has just the paid pieces of the product booked and held more
  -- than before the order, and all items are sound. The items of other products are as before, and
  -- those of the product differ in nothing but what is booked there; the pieces may be booked at
  -- other items of it than those they were taken from.
  pub try_reserve-Restores :
      (oid : String) (l m : OrderLineModel T) (s s1 : StoreStockModel T)
      (d : InventoryEditStockLevelDto T)
      → AreSound oid s.products
      → try_reserve oid l s ≡ returned (s1, none)
      → m.id_ ≡ l.id_
      → m.qty.reserved ≡ l.qty.reserved
      → m.qty.paid < m.qty.reserved
      → m.qty.reserved < 2_147_483_648
      → stock_to_return m ≡ returned d
      → Restores oid (product_id l.id_) m.qty.paid s (return_across_expiry d s1)
  try_reserve-Restores oid l m s s1 d v e i q p h st =
      let n = m.qty.reserved - m.qty.paid in
      let reserved_ : Reserves oid l s (returned (s1, none)) =
        subst (Reserves oid l s) e (try_reserve-Reserves oid l s (omega arith) (omega arith) v) in
      let dto = stock_to_return_lem m d (omega arith) h st in
      go (return_across_expiry d s1)
        (return_across_expiry-Returns oid n d s1 dto.0 (omega arith) (omega arith) reserved_.2)
        reserved_ dto.1 refl
    where
      go :
          (r : Outcome (StoreStockModel T × Option StockReturnErrorReason))
          → Returns oid (m.qty.reserved - m.qty.paid) d s1 r
          → Reserves oid l s (returned (s1, none))
          → d.product_id ≡ product_id m.id_
          → return_across_expiry d s1 ≡ r
          → Restores oid (product_id l.id_) m.qty.paid s r
      go panicked b a j k = b
      go (returned (s2, none)) b a j k =
          ground
            (arith, i, j, try_reserve-others oid l s s1 e, return_across_expiry-others d s1 s2 k)
      go (returned (s2, some x)) b a j k = ground (arith, i, j)
