-- ===== src/Order/UseCase/Discard.antt =====
-- How the stock of unpaid lines is given back: `OrderDiscardUnpaidItemsUseCase` of
-- services/order/src/usecase/manage_order.rs, on one order that `fetch_lines_by_rsvtime` finds.
use mathlib.Core.Path.{subst}
use e_commerce.Common.{
  ℕ, ◌+◌, ◌-◌, ◌≤◌, ◌<◌, ◌≡◌, refl, sym, ap, ◌∙◌, ◌⊎◌, ◌&&◌, List, [], ◌∷◌, String, length, All,
  sum_of, ◌==◌, ltb, if◌then◌else◌, arith, Bool-cases, inl, inr, sub32-eq,
}
use e_commerce.Common.Int.{pos}
use e_commerce.Common.Chrono.{Chrono}
use e_commerce.Common.Outcome.{Outcome, returned, panicked, ◌>>=◌}
use e_commerce.Order.Dto.{InventoryEditStockLevelDto, StockReturnErrorDto}
use e_commerce.Order.Line.{OrderLineModel, store_id, product_id, has_unpaid}
use e_commerce.Order.Line.Payment.{IsPayable, unpaid_lines, stock_to_return}
use e_commerce.Order.Stock.Store.{StoreStockModel}
use e_commerce.Order.Stock.Level.{return_across_expiry}
use e_commerce.Order.Stock.Level.Reserve.{AllSound, booked_at}
use e_commerce.Order.Stock.Level.Return.{
  IsReturn, given_back, GivesBackAll, return_across_expiry-GivesBackAll,
}

-- `unpaid_lines.into_iter().map(InventoryEditStockLevelDto::from)`
abbrev pub items_of :
    {T : Type 0} → List (OrderLineModel T) → Outcome (List (InventoryEditStockLevelDto T))
items_of [] = returned []
items_of (m ∷ ms) = stock_to_return m >>= λ r. items_of ms >>= λ rs. returned (r ∷ rs)

module _ {T : Type 0} ⦃c : Chrono T⦄ where
  abbrev pub discard_lines :
      List (OrderLineModel T)
      → List (StoreStockModel T)
      → Outcome (List (StoreStockModel T) × List StockReturnErrorDto)
  discard_lines [] ss = returned (ss, [])
  discard_lines (m ∷ ms) ss = items_of (m ∷ ms) >>= λ items. return_across_expiry items ss

  -- `read_oline_set_cb` with `read_stocklvl_cb`, on the stock that the repository loads; the errors,
  -- which the code drops, are kept here
  unfoldable pub read_oline_set_cb :
      List (OrderLineModel T)
      → List (StoreStockModel T)
      → Outcome (List (StoreStockModel T) × List StockReturnErrorDto)
  read_oline_set_cb lines ss = discard_lines (unpaid_lines lines) ss

-- A line is paid for no more than is reserved, which fits an `i32`.
abbrev pub FitsReturn : {T : Type 0} → OrderLineModel T → Type 0
FitsReturn m = IsPayable m × (m.qty.reserved < 2_147_483_648)

-- How much of a product at a store a line has not paid.
abbrev pub unpaid_at : {T : Type 0} → ℕ → ℕ → OrderLineModel T → ℕ
unpaid_at store pid m =
    if store == store_id m.id_ && pid == product_id m.id_ then m.qty.reserved - m.qty.paid else 0

module _ {T : Type 0} where
  -- What the unpaid lines ask to give back.
  Items : ℕ → ℕ → List (OrderLineModel T) → Type 0
  Items store pid lines =
      (items : List (InventoryEditStockLevelDto T)) × (items_of (unpaid_lines lines)
        ≡ returned items)
      × All IsReturn items
      × (length items ≡ length (unpaid_lines lines))
      × (sum_of (given_back store pid) items ≡ sum_of (unpaid_at store pid) lines)

  abbrev item_of : OrderLineModel T → InventoryEditStockLevelDto T
  item_of m = record {
    qty_add = pos (m.qty.reserved - m.qty.paid);
    store_id = store_id m.id_;
    product_id = product_id m.id_;
    expiry = m.policy.reserved_until;
  }

  stock_to_return-item_of :
      (m : OrderLineModel T) → FitsReturn m → stock_to_return m ≡ returned (item_of m)
  unfolding stock_to_return
  stock_to_return-item_of m (payable, fits) = ground (arith, sub32-eq m.qty.reserved m.qty.paid)

  unpaid-Items :
      (store pid : ℕ) (lines : List (OrderLineModel T))
      → All FitsReturn lines
      → Items store pid lines
  unfolding Items unpaid_lines has_unpaid
  unpaid-Items store pid [] h = ([], refl, tt, refl, refl)
  unpaid-Items store pid (m ∷ ms) (h, hs) =
      let (items, e, all, n, total) = unpaid-Items store pid ms hs in
      elim (Bool-cases (ltb m.qty.paid m.qty.reserved)) [
        | inr paid ↦ (items, rw paid e, all, rw paid n, ground (arith, paid, total))
        | inl unpaid ↦ (
          item_of m ∷ items,
          rw unpaid (rw (stock_to_return-item_of m h, e) refl),
          ((refl, ground (arith, unpaid), ground (arith)), all),
          rw unpaid (omega (arith, n)),
          ground (arith, total),
        )
      ]

sum_of-nil : {A : Type 0} (f : A → ℕ) (xs : List A) → length xs ≡ 0 → sum_of f xs ≡ 0
sum_of-nil f [] h = refl
sum_of-nil f (x ∷ xs) h = absurd (omega (arith, h))

module _ {T : Type 0} ⦃c : Chrono T⦄ where
  -- What the discard leaves of the stock.
  pub Discards :
      String
      → ℕ
      → ℕ
      → List (OrderLineModel T)
      → List (StoreStockModel T)
      → Outcome (List (StoreStockModel T) × List StockReturnErrorDto)
      → Type 0
  Discards oid store pid lines ss panicked = ⊥
  Discards oid store pid lines ss (returned (ss', es)) =
      AllSound oid ss'
      × (length es ≤ length (unpaid_lines lines))
      × (booked_at store pid ss' ≤ booked_at store pid ss)
      × (booked_at store pid ss ≤ booked_at store pid ss' + sum_of (unpaid_at store pid) lines)
      × ((0 < length es)
          ⊎ (booked_at store pid ss' + sum_of (unpaid_at store pid) lines ≡ booked_at store pid ss))

  GivesBackAll-Discards :
      (oid : String) (store pid : ℕ) (lines : List (OrderLineModel T))
      (items : List (InventoryEditStockLevelDto T)) (ss : List (StoreStockModel T))
      (r : Outcome (List (StoreStockModel T) × List StockReturnErrorDto))
      → length items ≡ length (unpaid_lines lines)
      → sum_of (given_back store pid) items ≡ sum_of (unpaid_at store pid) lines
      → GivesBackAll oid items ss store pid r
      → Discards oid store pid lines ss r
  unfolding Discards
  GivesBackAll-Discards oid store pid lines items ss panicked n total h = h
  GivesBackAll-Discards oid store pid lines items ss (returned (ss', es)) n total
        (sound, few, less, most, all) =
      (sound, omega (arith, n, few), less, omega (arith, total, most), ground (arith, total, all))

  Discards-none :
      (oid : String) (store pid : ℕ) (lines : List (OrderLineModel T))
      (ss : List (StoreStockModel T))
      → AllSound oid ss
      → sum_of (unpaid_at store pid) lines ≡ 0
      → Discards oid store pid lines ss (returned (ss, []))
  unfolding Discards
  Discards-none oid store pid lines ss sound zero_sum =
      (sound, omega arith, omega arith, omega arith, inr (omega (arith, zero_sum)))

  -- The stock of the unpaid lines of an order is given back on stores that are sound for it, where
  -- each line reserves at least what is paid and less than 2 ^ 31. This does not panic and leaves
  -- the stores sound. For each store and product the booked pieces do not grow, and shrink by no
  -- more than what is reserved and unpaid there, and by just that if there is no error.
  pub read_oline_set_cb-Discards :
      (oid : String) (store pid : ℕ) (lines : List (OrderLineModel T))
      (ss : List (StoreStockModel T))
      → All FitsReturn lines
      → AllSound oid ss
      → Discards oid store pid lines ss (read_oline_set_cb lines ss)
  unfolding read_oline_set_cb Items
  read_oline_set_cb-Discards oid store pid lines ss fits sound =
      let (items, e, all, n, total) = unpaid-Items store pid lines fits in
      go (unpaid_lines lines) refl items e all n total
    where
      go :
          (us : List (OrderLineModel T))
          → unpaid_lines lines ≡ us
          → (items : List (InventoryEditStockLevelDto T))
          → items_of (unpaid_lines lines) ≡ returned items
          → All IsReturn items
          → length items ≡ length (unpaid_lines lines)
          → sum_of (given_back store pid) items ≡ sum_of (unpaid_at store pid) lines
          → Discards oid store pid lines ss (discard_lines (unpaid_lines lines) ss)
      go [] eu items e all n total = rw eu (
          Discards-none oid store pid lines ss sound
            (sym total ∙ sum_of-nil (given_back store pid) items (n ∙ ap length eu)))
      go (u ∷ us) eu items e all n total =
          let step : discard_lines (u ∷ us) ss ≡ return_across_expiry items ss =
            ap
              (λ (o : Outcome (List (InventoryEditStockLevelDto T))).
                o >>= λ rs. return_across_expiry rs ss)
              (rw eu at e) in
          rw eu (
            subst (Discards oid store pid lines ss) (sym step) (
              GivesBackAll-Discards oid store pid lines items ss (return_across_expiry items ss) n
                total (return_across_expiry-GivesBackAll oid items ss store pid all sound)))
