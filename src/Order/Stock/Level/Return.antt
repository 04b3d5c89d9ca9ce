-- ===== src/Order/Stock/Level/Return.antt =====
-- Returns of an order over all stores.
use e_commerce.Common.{
  ℕ, ◌+◌, ◌≤◌, ◌<◌, ◌≡◌, ◌⊎◌, refl, false, ◌&&◌, Option, none, some, List, [], ◌∷◌, String, arith,
  ◌==◌, if◌then◌else◌, All, sum_of, u32_mod, length,
}
use e_commerce.Common.Int.{pos}
use e_commerce.Common.Chrono.{Chrono}
use e_commerce.Common.Outcome.{Outcome, returned, panicked, ◌>>=◌}
use e_commerce.Order.Dto.{InventoryEditStockLevelDto, StockReturnErrorReason, StockReturnErrorDto}
use e_commerce.Order.Stock.Store.{StoreStockModel, as_u32}
use e_commerce.Order.Stock.Store as Store
use e_commerce.Order.Stock.Store.Sums.{AreSound, booked_of}
use e_commerce.Order.Stock.Store.Return.{dry_return_lem, give_back_lem, give_back_others}
use e_commerce.Order.Stock.Level.{
  on_store, for_each, return_common, return_across_expiry, sort_by_expiry, push_error,
  with_return_error, return_error,
}
use e_commerce.Order.Stock.Level.Reserve.{
  AllSound, booked_at, booked_at-sort_by_expiry, AllSound-sort_by_expiry,
}

-- A return of a positive number of pieces.
abbrev pub IsReturn : {T : Type 0} → InventoryEditStockLevelDto T → Type 0
IsReturn req =
    (req.qty_add ≡ pos (as_u32 req.qty_add))
    × (0 < as_u32 req.qty_add)
    × (as_u32 req.qty_add < u32_mod)

-- How much of a product at a store it is for.
abbrev pub given_back : {T : Type 0} → ℕ → ℕ → InventoryEditStockLevelDto T → ℕ
given_back store pid req =
    if store == req.store_id && pid == req.product_id then as_u32 req.qty_add else 0

module _ {T : Type 0} where
  abbrev GivesBackIn :
      String
      → InventoryEditStockLevelDto T
      → StoreStockModel T
      → ℕ
      → Outcome (StoreStockModel T × Option StockReturnErrorReason)
      → Type 0
  GivesBackIn oid req s pid panicked = ⊥
  GivesBackIn oid req s pid (returned (s', none)) =
      (s'.store_id ≡ s.store_id)
      × AreSound oid s'.products
      × (booked_of pid s'.products + (if pid == req.product_id then as_u32 req.qty_add else 0)
          ≡ booked_of pid s.products)
  GivesBackIn oid req s pid (returned (s', some e)) = s' ≡ s

  return_across_expiry-GivesBackIn :
      (oid : String) (req : InventoryEditStockLevelDto T) (s : StoreStockModel T) (pid : ℕ)
      → IsReturn req
      → AreSound oid s.products
      → GivesBackIn oid req s pid (Store.return_across_expiry req s)
  unfolding Store.return_across_expiry
  return_across_expiry-GivesBackIn oid req s pid (e, p, h) v =
      let n = as_u32 req.qty_add in
      ground (
        arith,
        dry_return_lem req.product_id n s.products h,
        give_back_lem oid req.product_id n s.products h v,
        give_back_others req.product_id n pid s.products,
      )

  -- One return: it is given back whole, or there is an error and the stock is as before.
  abbrev GivesBack :
      String
      → InventoryEditStockLevelDto T
      → List (StoreStockModel T)
      → ℕ
      → ℕ
      → Outcome (List (StoreStockModel T) × Option StockReturnErrorDto)
      → Type 0
  GivesBack oid req ss store pid panicked = ⊥
  GivesBack oid req ss store pid (returned (ss', none)) =
      AllSound oid ss'
      × (booked_at store pid ss' + given_back store pid req ≡ booked_at store pid ss)
  GivesBack oid req ss store pid (returned (ss', some e)) = ss' ≡ ss

  abbrev return_step :
      InventoryEditStockLevelDto T
      → List (StoreStockModel T)
      → Outcome (List (StoreStockModel T) × Option StockReturnErrorDto)
  return_step req =
      on_store req.store_id
        (λ s. Store.return_across_expiry req s >>= λ r. returned (with_return_error req r))
        (return_error req StockReturnErrorReason.not_exist)

  return_step-GivesBack :
      (oid : String) (req : InventoryEditStockLevelDto T) (ss : List (StoreStockModel T))
      (store pid : ℕ)
      → IsReturn req
      → AllSound oid ss
      → GivesBack oid req ss store pid (return_step req ss)
  unfolding on_store
  return_step-GivesBack oid req [] store pid q v = refl
  return_step-GivesBack oid req (s ∷ ss) store pid q (v, vs) = ground (
    arith,
    return_across_expiry-GivesBackIn oid req s pid q v,
    return_step-GivesBack oid req ss store pid q vs,
  )

  -- All returns of a request: no more is given back than they ask for, with at most one error for
  -- each; and with no error, all that they ask for is given back.
  abbrev pub GivesBackAll :
      String
      → List (InventoryEditStockLevelDto T)
      → List (StoreStockModel T)
      → ℕ
      → ℕ
      → Outcome (List (StoreStockModel T) × List StockReturnErrorDto)
      → Type 0
  GivesBackAll oid rs ss store pid panicked = ⊥
  GivesBackAll oid rs ss store pid (returned (ss', es)) =
      AllSound oid ss'
      × (length es ≤ length rs)
      × (booked_at store pid ss' ≤ booked_at store pid ss)
      × (booked_at store pid ss ≤ booked_at store pid ss' + sum_of (given_back store pid) rs)
      × ((0 < length es)
          ⊎ (booked_at store pid ss' + sum_of (given_back store pid) rs ≡ booked_at store pid ss))

  for_each-GivesBackAll :
      (oid : String) (rs : List (InventoryEditStockLevelDto T)) (ss : List (StoreStockModel T))
      (store pid : ℕ)
      → All IsReturn rs
      → AllSound oid ss
      → GivesBackAll oid rs ss store pid (for_each return_step rs ss)
  unfolding for_each
  for_each-GivesBackAll oid [] ss store pid q v = ground arith
  for_each-GivesBackAll oid (r ∷ rs) ss store pid (q, qs) v =
      go (return_step r ss) (return_step-GivesBack oid r ss store pid q v)
        (λ ss'. for_each-GivesBackAll oid rs ss' store pid qs)
    where
      go :
          (x : Outcome (List (StoreStockModel T) × Option StockReturnErrorDto))
          → GivesBack oid r ss store pid x
          → ((ss' : List (StoreStockModel T))
              → AllSound oid ss'
              → GivesBackAll oid rs ss' store pid (for_each return_step rs ss'))
          → GivesBackAll oid (r ∷ rs) ss store pid (
              x >>= λ r1.
              for_each return_step rs r1.0 >>= λ rest. returned (rest.0, push_error r1.1 rest.1))
      go panicked b ih = b
      go (returned (ss', none)) b ih = ground (arith, ih ss' b.0)
      go (returned (ss', some e)) b ih = ground (arith, ih ss v)

  GivesBackAll-congr :
      (oid : String) (rs : List (InventoryEditStockLevelDto T)) (ss ss0 : List (StoreStockModel T))
      (store pid : ℕ) (x : Outcome (List (StoreStockModel T) × List StockReturnErrorDto))
      → booked_at store pid ss ≡ booked_at store pid ss0
      → GivesBackAll oid rs ss store pid x
      → GivesBackAll oid rs ss0 store pid x
  GivesBackAll-congr oid rs ss ss0 store pid panicked e b = b
  GivesBackAll-congr oid rs ss ss0 store pid (returned (ss', es)) e b = ground arith

module _ {T : Type 0} ⦃c : Chrono T⦄ where
  -- Returns of positive numbers never panic on stores that are sound for the order, and leave them
  -- sound. For each store and product the booked pieces grow in no case, shrink by no more than the
  -- returns ask for, and by all of it if none has an error; there is at most one error for each
  -- return.
  pub return_across_expiry-GivesBackAll :
      (oid : String) (rs : List (InventoryEditStockLevelDto T)) (ss : List (StoreStockModel T))
      (store pid : ℕ)
      → All IsReturn rs
      → AllSound oid ss
      → GivesBackAll oid rs ss store pid (return_across_expiry rs ss)
  unfolding return_across_expiry return_common
  return_across_expiry-GivesBackAll oid rs ss store pid q v =
      GivesBackAll-congr oid rs (sort_by_expiry false ss) ss store pid
        (for_each return_step rs (sort_by_expiry false ss))
        (booked_at-sort_by_expiry false ss store pid)
        (for_each-GivesBackAll oid rs (sort_by_expiry false ss) store pid q
          (AllSound-sort_by_expiry false oid ss v))
