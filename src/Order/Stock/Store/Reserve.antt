-- ===== src/Order/Stock/Store/Reserve.antt =====
-- `StoreStockModel::try_reserve` takes all that is asked for, or nothing.
use e_commerce.Common.{
  ℕ, ◌+◌, ◌-◌, ◌≤◌, ◌<◌, ◌≡◌, ◌≢◌, refl, true, ◌⊎◌, inr, Option, none, some, List, [], ◌∷◌, map,
  String, min, arith, ◌==◌, if◌then◌else◌, u32_mod, sub32, sub32-eq, sub32-lt,
}
use e_commerce.Common.Outcome.{Outcome, returned, panicked}
use e_commerce.Order.Dto.{OrderLineCreateErrorReason, out_of_stock, not_enough_to_claim}
use e_commerce.Order.Line.{OrderLineModel, product_id}
use e_commerce.Order.Stock.Quantity.{free, reserve, num_avail, num_avail-eq-free, reserve_lem}
use e_commerce.Order.Stock.Store.{
  ProductStockModel, StoreStockModel, dry_reserve, take_stock, try_reserve,
}
use e_commerce.Order.Stock.Store.Sums.{free_of, booked_of, held_of, AreSound, fixed_part}

module _ {T : Type 0} where
  -- The dry run leaves what the free stock does not cover, and finds it when it is enough.
  pub dry_reserve_lem :
      (oid : String) (pid n : ℕ) (ps : List (ProductStockModel T))
      → n < u32_mod
      → AreSound oid ps
      → ((dry_reserve pid n ps).0 ≡ n - free_of pid ps)
        × (0 < n → (dry_reserve pid n ps).0 ≡ 0 → (dry_reserve pid n ps).1 ≡ true)
  unfolding dry_reserve
  dry_reserve_lem oid pid n [] h v = ground arith
  dry_reserve_lem oid pid n (p ∷ ps) h (v, vs) =
      let m = min (num_avail p.quantity) n in
      ground (
        arith,
        num_avail-eq-free p.quantity v.0,
        sub32-eq n m,
        dry_reserve_lem oid pid (sub32 n m) ps (sub32-lt n m) vs,
        dry_reserve_lem oid pid n ps h vs,
      )

  -- The second run takes up to `n` items of the product, and nothing of another one.
  pub take_stock_lem :
      (oid : String) (pid n : ℕ) (ps : List (ProductStockModel T))
      → n < u32_mod
      → AreSound oid ps
      → let (ps', left) = take_stock oid pid n ps in
        (left ≡ n - free_of pid ps)
        × AreSound oid ps'
        × (booked_of pid ps' + left ≡ booked_of pid ps + n)
        × (held_of pid ps' + left ≡ held_of pid ps + n)
        × (map fixed_part ps' ≡ map fixed_part ps)
  unfolding take_stock
  take_stock_lem oid pid n [] h v = ground arith
  take_stock_lem oid pid n (p ∷ ps) h (v, vs) =
      let taken = (reserve oid n p.quantity).1 in
      ground (
        arith,
        reserve_lem oid n p.quantity v.0 v.1,
        sub32-eq n taken,
        take_stock_lem oid pid (sub32 n taken) ps (sub32-lt n taken) vs,
        take_stock_lem oid pid n ps h vs,
      )

  -- The stock of the other products is as before.
  pub take_stock_others :
      (oid : String) (pid n j : ℕ) (ps : List (ProductStockModel T))
      → j ≢ pid
      → let ps' = (take_stock oid pid n ps).0 in
        (booked_of j ps' ≡ booked_of j ps)
        × (held_of j ps' ≡ held_of j ps)
        × (free_of j ps' ≡ free_of j ps)
  unfolding take_stock
  take_stock_others oid pid n j [] ne = (refl, refl, refl)
  take_stock_others oid pid n j (p ∷ ps) ne =
      let taken = (reserve oid n p.quantity).1 in
      ground (
        arith,
        take_stock_others oid pid (sub32 n taken) j ps ne,
        take_stock_others oid pid n j ps ne,
      )

  -- `ps'` differs from `ps` behind an item of the product only if that item is sold out.
  abbrev pub TakesInOrder : ℕ → List (ProductStockModel T) → List (ProductStockModel T) → Type 0
  TakesInOrder pid [] [] = Unit
  TakesInOrder pid [] (p' ∷ ps') = ⊥
  TakesInOrder pid (p ∷ ps) [] = ⊥
  TakesInOrder pid (p ∷ ps) (p' ∷ ps') =
      ((p.id_ ≢ pid) ⊎ (free p'.quantity ≡ 0) ⊎ (ps' ≡ ps)) × TakesInOrder pid ps ps'

  TakesInOrder-refl : (pid : ℕ) (ps : List (ProductStockModel T)) → TakesInOrder pid ps ps
  TakesInOrder-refl pid [] = tt
  TakesInOrder-refl pid (p ∷ ps) = (inr (inr refl), TakesInOrder-refl pid ps)

  pub take_stock-TakesInOrder :
      (oid : String) (pid n : ℕ) (ps : List (ProductStockModel T))
      → n < u32_mod
      → AreSound oid ps
      → TakesInOrder pid ps (take_stock oid pid n ps).0
  unfolding take_stock
  take_stock-TakesInOrder oid pid n [] h v = tt
  take_stock-TakesInOrder oid pid n (p ∷ ps) h (v, vs) =
      let taken = (reserve oid n p.quantity).1 in
      ground (
        arith,
        reserve_lem oid n p.quantity v.0 v.1,
        sub32-eq n taken,
        TakesInOrder-refl pid ps,
        take_stock-TakesInOrder oid pid (sub32 n taken) ps (sub32-lt n taken) vs,
        take_stock-TakesInOrder oid pid n ps h vs,
      )

  -- What `try_reserve` promises of an order line and a store, by how it ended.
  abbrev pub Reserves :
      String
      → OrderLineModel T
      → StoreStockModel T
      → Outcome (StoreStockModel T × Option (OrderLineCreateErrorReason × ℕ))
      → Type 0
  Reserves oid req s panicked = ⊥
  Reserves oid req s (returned (s', none)) =
      let pid = product_id req.id_ in
      let n = req.qty.reserved in
      (n ≤ free_of pid s.products)
      × (s'.store_id ≡ s.store_id)
      × AreSound oid s'.products
      × (booked_of pid s'.products ≡ booked_of pid s.products + n)
      × (held_of pid s'.products ≡ held_of pid s.products + n)
      × (map fixed_part s'.products ≡ map fixed_part s.products)
      × TakesInOrder pid s.products s'.products
  Reserves oid req s (returned (s', some (reason, shortage))) =
      let free_now = free_of (product_id req.id_) s.products in
      (s' ≡ s)
      × (free_now < req.qty.reserved)
      × (shortage ≡ req.qty.reserved - free_now)
      × (reason ≡ (if free_now == 0 then out_of_stock else not_enough_to_claim))

  -- A reservation of a positive number of pieces at a store whose items are sound for the order
  -- never panics. Without an error the free stock covers the request; the booked pieces of the
  -- product and those recorded for the order grow by just that number, all items stay sound,
  -- nothing but bookings changes, and a later item of the product changes only where the earlier
  -- ones are sold out. With an error the store is as before, the free stock is less than asked for,
  -- and the reason and the shortage are the right ones.
  pub try_reserve-Reserves :
      (oid : String) (req : OrderLineModel T) (s : StoreStockModel T)
      → 0 < req.qty.reserved
      → req.qty.reserved < u32_mod
      → AreSound oid s.products
      → Reserves oid req s (try_reserve oid req s)
  unfolding try_reserve
  try_reserve-Reserves oid req s pos h v =
      let pid = product_id req.id_ in
      ground (
        arith,
        dry_reserve_lem oid pid req.qty.reserved s.products h v,
        take_stock_lem oid pid req.qty.reserved s.products h v,
        take_stock-TakesInOrder oid pid req.qty.reserved s.products h v,
      )
