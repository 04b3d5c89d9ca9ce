-- ===== src/Order/Stock/Level/Reserve.antt =====
-- Orders and returns over all stores.
use e_commerce.Common.{
  ℕ, ◌+◌, ◌≤◌, ◌<◌, ◌≡◌, ◌⊎◌, refl, Bool, true, ◌&&◌, Option, none, some, List, [], ◌∷◌, String,
  arith, ◌==◌, if◌then◌else◌, All, sum_of, u32_mod, length,
}
use e_commerce.Common.Chrono.{Chrono}
use e_commerce.Common.Outcome.{Outcome, returned, panicked, ◌>>=◌}
use e_commerce.Order.Dto.{OrderLineCreateErrorReason, OrderLineCreateErrorDto}
use e_commerce.Order.Line.{OrderLineModel, store_id, product_id}
use e_commerce.Order.Stock.Store.{ProductStockModel, StoreStockModel}
use e_commerce.Order.Stock.Store
use e_commerce.Order.Stock.Store.Sums.{booked_of, AreSound, IsSoundItem, of_product}
use e_commerce.Order.Stock.Store.Reserve.{take_stock_others, dry_reserve_lem, take_stock_lem}
use e_commerce.Order.Stock.Level.{
  on_store, for_each, reserve_line, try_reserve, sort_by_expiry, expires_before, push_error,
}
use e_commerce.Order.Stock.Level.Sort.{sort_by-sum_of, sort_by-All}

module _ {T : Type 0} where
  -- Every store is sound for the order.
  abbrev pub AllSound : String → List (StoreStockModel T) → Type 0
  AllSound oid = All λ s. AreSound oid s.products

  -- What is booked of a product in the store that serves its id, which is the first with that id.
  abbrev pub booked_at : ℕ → ℕ → List (StoreStockModel T) → ℕ
  booked_at store pid [] = 0
  booked_at store pid (s ∷ ss) =
      if store == s.store_id then booked_of pid s.products else booked_at store pid ss

  -- How much of it an order asks for.
  abbrev pub wanted : ℕ → ℕ → OrderLineModel T → ℕ
  wanted store pid l =
      if store == store_id l.id_ && pid == product_id l.id_ then l.qty.reserved else 0

  -- The request of a line is a positive machine word.
  abbrev pub HasQuantity : OrderLineModel T → Type 0
  HasQuantity l = (0 < l.qty.reserved) × (l.qty.reserved < u32_mod)

  -- One line: it is booked whole, or there is an error and the stock is as before.
  abbrev pub Books :
      String
      → OrderLineModel T
      → List (StoreStockModel T)
      → ℕ
      → ℕ
      → Outcome (List (StoreStockModel T) × Option OrderLineCreateErrorDto)
      → Type 0
  Books oid l ss store pid panicked = ⊥
  Books oid l ss store pid (returned (ss', none)) =
      AllSound oid ss' × (booked_at store pid ss' ≡ booked_at store pid ss + wanted store pid l)
  Books oid l ss store pid (returned (ss', some e)) = ss' ≡ ss

  abbrev BooksIn :
      String
      → OrderLineModel T
      → StoreStockModel T
      → ℕ
      → Outcome (StoreStockModel T × Option (OrderLineCreateErrorReason × ℕ))
      → Type 0
  BooksIn oid l s pid panicked = ⊥
  BooksIn oid l s pid (returned (s', none)) =
      (s'.store_id ≡ s.store_id)
      × AreSound oid s'.products
      × (booked_of pid s'.products
          ≡ booked_of pid s.products + (if pid == product_id l.id_ then l.qty.reserved else 0))
  BooksIn oid l s pid (returned (s', some e)) = s' ≡ s

  try_reserve-BooksIn :
      (oid : String) (l : OrderLineModel T) (s : StoreStockModel T) (pid : ℕ)
      → HasQuantity l
      → AreSound oid s.products
      → BooksIn oid l s pid (Store.try_reserve oid l s)
  unfolding Store.try_reserve
  try_reserve-BooksIn oid l s pid (p, h) v =
      let n = l.qty.reserved in
      let own = product_id l.id_ in
      ground (
        arith,
        dry_reserve_lem oid own n s.products h v,
        take_stock_lem oid own n s.products h v,
        take_stock_others oid own n pid s.products,
      )

  pub reserve_line-Books :
      (oid : String) (l : OrderLineModel T) (ss : List (StoreStockModel T)) (store pid : ℕ)
      → HasQuantity l
      → AllSound oid ss
      → Books oid l ss store pid (reserve_line oid l ss)
  unfolding reserve_line on_store
  reserve_line-Books oid l [] store pid q v = refl
  reserve_line-Books oid l (s ∷ ss) store pid q (v, vs) =
      ground
        (arith, try_reserve-BooksIn oid l s pid q v, reserve_line-Books oid l ss store pid q vs)

  -- A whole order: no more is booked than it asks for, with at most one error for each line; and
  -- with no error, all that it asks for is booked.
  abbrev pub BooksAll :
      String
      → List (OrderLineModel T)
      → List (StoreStockModel T)
      → ℕ
      → ℕ
      → Outcome (List (StoreStockModel T) × List OrderLineCreateErrorDto)
      → Type 0
  BooksAll oid ls ss store pid panicked = ⊥
  BooksAll oid ls ss store pid (returned (ss', es)) =
      AllSound oid ss'
      × (length es ≤ length ls)
      × (booked_at store pid ss ≤ booked_at store pid ss')
      × (booked_at store pid ss' ≤ booked_at store pid ss + sum_of (wanted store pid) ls)
      × ((0 < length es)
          ⊎ (booked_at store pid ss' ≡ booked_at store pid ss + sum_of (wanted store pid) ls))

  pub for_each-BooksAll :
      (oid : String) (ls : List (OrderLineModel T)) (ss : List (StoreStockModel T)) (store pid : ℕ)
      → All HasQuantity ls
      → AllSound oid ss
      → BooksAll oid ls ss store pid (for_each (reserve_line oid) ls ss)
  unfolding for_each
  for_each-BooksAll oid [] ss store pid q v = ground arith
  for_each-BooksAll oid (l ∷ ls) ss store pid (q, qs) v =
      go (reserve_line oid l ss) (reserve_line-Books oid l ss store pid q v)
        (λ ss'. for_each-BooksAll oid ls ss' store pid qs)
    where
      go :
          (r : Outcome (List (StoreStockModel T) × Option OrderLineCreateErrorDto))
          → Books oid l ss store pid r
          → ((ss' : List (StoreStockModel T))
              → AllSound oid ss'
              → BooksAll oid ls ss' store pid (for_each (reserve_line oid) ls ss'))
          → BooksAll oid (l ∷ ls) ss store pid (
              r >>= λ r1. for_each (reserve_line oid) ls r1.0 >>= λ rest.
              returned (rest.0, push_error r1.1 rest.1))
      go panicked b ih = b
      go (returned (ss', none)) b ih = ground (arith, ih ss' b.0)
      go (returned (ss', some e)) b ih = ground (arith, ih ss v)

  BooksAll-congr :
      (oid : String) (ls : List (OrderLineModel T)) (ss ss0 : List (StoreStockModel T))
      (store pid : ℕ) (r : Outcome (List (StoreStockModel T) × List OrderLineCreateErrorDto))
      → booked_at store pid ss ≡ booked_at store pid ss0
      → BooksAll oid ls ss store pid r
      → BooksAll oid ls ss0 store pid r
  BooksAll-congr oid ls ss ss0 store pid panicked e b = b
  BooksAll-congr oid ls ss ss0 store pid (returned (ss', es)) e b = ground arith

module _ {T : Type 0} ⦃c : Chrono T⦄ where
  pub booked_at-sort_by_expiry :
      (asc : Bool) (ss : List (StoreStockModel T)) (store pid : ℕ)
      → booked_at store pid (sort_by_expiry asc ss) ≡ booked_at store pid ss
  unfolding sort_by_expiry
  booked_at-sort_by_expiry asc [] store pid = refl
  booked_at-sort_by_expiry asc (s ∷ ss) store pid = ground (
    arith,
    sort_by-sum_of (of_product (λ q. q.booked) pid) (expires_before asc) s.products,
    booked_at-sort_by_expiry asc ss store pid,
  )

  pub AllSound-sort_by_expiry :
      (asc : Bool) (oid : String) (ss : List (StoreStockModel T))
      → AllSound oid ss
      → AllSound oid (sort_by_expiry asc ss)
  unfolding sort_by_expiry
  AllSound-sort_by_expiry asc oid [] v = tt
  AllSound-sort_by_expiry asc oid (s ∷ ss) (v, vs) = (
    sort_by-All (IsSoundItem oid) (expires_before asc) s.products v,
    AllSound-sort_by_expiry asc oid ss vs,
  )

  -- An order whose lines ask for positive numbers never panics on stores that are sound for it, and
  -- leaves them sound. For each store and product the booked pieces shrink in no case, grow by no
  -- more than the order asks for, and by all of it if no line has an error; there is at most one
  -- error for each line.
  pub try_reserve-BooksAll :
      (oid : String) (ls : List (OrderLineModel T)) (ss : List (StoreStockModel T)) (store pid : ℕ)
      → All HasQuantity ls
      → AllSound oid ss
      → BooksAll oid ls ss store pid (try_reserve oid ls ss)
  unfolding try_reserve
  try_reserve-BooksAll oid ls ss store pid q v =
      BooksAll-congr oid ls (sort_by_expiry true ss) ss store pid
        (for_each (reserve_line oid) ls (sort_by_expiry true ss))
        (booked_at-sort_by_expiry true ss store pid)
        (for_each-BooksAll oid ls (sort_by_expiry true ss) store pid q
          (AllSound-sort_by_expiry true oid ss v))
