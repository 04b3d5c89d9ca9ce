-- ===== src/Order/Stock/Store/Return.antt =====
-- Returns to a store give back what was asked for, or change nothing.
use e_commerce.Common.{
  ℕ, ◌+◌, ◌-◌, ◌≤◌, ◌<◌, ◌≡◌, ◌≢◌, refl, ◌⊎◌, inl, inr, Option, none, some, List, [], ◌∷◌, map,
  String, min, arith, ◌==◌, if◌then◌else◌, u32_mod, sub32, sub32-eq, sub32-lt, find, modify_first,
  Option-cases,
}
use e_commerce.Common.Int.{pos, negsuc}
use e_commerce.Common.Chrono.{Chrono}
use e_commerce.Common.Outcome.{Outcome, returned, panicked}
use e_commerce.Order.Dto.{InventoryEditStockLevelDto, StockReturnErrorReason, invalid_quantity}
use e_commerce.Order.Stock.Quantity.{
  StockQtyRsvModel, held, try_return, try_return_lem, try_return-IsOwnedBy,
}
use e_commerce.Order.Stock.Store.{
  ProductStockModel, StoreStockModel, held_after, dry_return, give_back, return_across_expiry,
  return_by_expiry, is_same_item,
}
use e_commerce.Order.Stock.Store.Sums.{free_of, booked_of, held_of, AreSound, fixed_part}

held_after_lem : (n : ℕ) (d : Option StockQtyRsvModel) → n < u32_mod → held_after n d ≡ n - held d
held_after_lem n none h = omega arith
held_after_lem n (some r) h = omega (arith, sub32-eq n (min r.reserved n))

held_after-lt : (n : ℕ) (d : Option StockQtyRsvModel) → n < u32_mod → held_after n d < u32_mod
held_after-lt n d h = omega (arith, held_after_lem n d h)

module _ {T : Type 0} where
  -- The dry run leaves what the order's details do not cover.
  pub dry_return_lem :
      (pid n : ℕ) (ps : List (ProductStockModel T))
      → n < u32_mod
      → dry_return pid n ps ≡ n - held_of pid ps
  unfolding dry_return
  dry_return_lem pid n [] h = omega arith
  dry_return_lem pid n (p ∷ ps) h =
      let d = p.quantity.rsv_detail in
      ground (
        arith,
        held_after_lem n d h,
        dry_return_lem pid (held_after n d) ps (held_after-lt n d h),
        dry_return_lem pid n ps h,
      )

  -- The second run gives up to `n` items back.
  pub give_back_lem :
      (oid : String) (pid n : ℕ) (ps : List (ProductStockModel T))
      → n < u32_mod
      → AreSound oid ps
      → let (ps', left) = give_back pid n ps in
        (left ≡ n - held_of pid ps)
        × AreSound oid ps'
        × (booked_of pid ps' + n ≡ booked_of pid ps + left)
        × (held_of pid ps' + n ≡ held_of pid ps + left)
        × (map fixed_part ps' ≡ map fixed_part ps)
  unfolding give_back
  give_back_lem oid pid n [] h v = ground arith
  give_back_lem oid pid n (p ∷ ps) h (v, vs) =
      let given = (try_return n p.quantity).1 in
      ground (
        arith,
        try_return_lem n p.quantity v.0,
        try_return-IsOwnedBy oid n p.quantity v.1,
        sub32-eq n given,
        give_back_lem oid pid (sub32 n given) ps (sub32-lt n given) vs,
        give_back_lem oid pid n ps h vs,
      )

  pub give_back_others :
      (pid n j : ℕ) (ps : List (ProductStockModel T))
      → j ≢ pid
      → let ps' = (give_back pid n ps).0 in
        (booked_of j ps' ≡ booked_of j ps)
        × (held_of j ps' ≡ held_of j ps)
        × (free_of j ps' ≡ free_of j ps)
  unfolding give_back
  give_back_others pid n j [] ne = (refl, refl, refl)
  give_back_others pid n j (p ∷ ps) ne =
      let given = (try_return n p.quantity).1 in
      ground (arith, give_back_others pid (sub32 n given) j ps ne, give_back_others pid n j ps ne)

  -- What a return of `n` items across all expiry dates promises, by how it ended.
  abbrev pub Returns :
      String
      → ℕ
      → InventoryEditStockLevelDto T
      → StoreStockModel T
      → Outcome (StoreStockModel T × Option StockReturnErrorReason)
      → Type 0
  Returns oid n req s panicked = ⊥
  Returns oid n req s (returned (s', none)) =
      let pid = req.product_id in
      (n ≤ held_of pid s.products)
      × (s'.store_id ≡ s.store_id)
      × AreSound oid s'.products
      × (booked_of pid s'.products + n ≡ booked_of pid s.products)
      × (held_of pid s'.products + n ≡ held_of pid s.products)
      × (map fixed_part s'.products ≡ map fixed_part s.products)
  Returns oid n req s (returned (s', some reason)) =
      let held_now = held_of req.product_id s.products in
      (s' ≡ s)
      × (held_now < n)
      × (reason ≡ (if held_now == 0 then StockReturnErrorReason.not_exist else invalid_quantity))

  -- A return of a positive number of pieces to a store whose items are sound for the order never
  -- panics. Without an error the order held at least that number; the booked and the held pieces of
  -- the product shrink by just that, all items stay sound, and nothing but bookings changes. With
  -- an error the store is as before, the order held less, and the reason tells whether it held
  -- nothing.
  pub return_across_expiry-Returns :
      (oid : String) (n : ℕ) (req : InventoryEditStockLevelDto T) (s : StoreStockModel T)
      → req.qty_add ≡ pos n
      → 0 < n
      → n < u32_mod
      → AreSound oid s.products
      → Returns oid n req s (return_across_expiry req s)
  unfolding return_across_expiry
  return_across_expiry-Returns oid n req s e p h v = ground (
    arith,
    dry_return_lem req.product_id n s.products h,
    give_back_lem oid req.product_id n s.products h v,
  )

  -- A request that is not positive stops the process, whatever is in stock.
  pub return_across_expiry_panic :
      (n : ℕ) (req : InventoryEditStockLevelDto T) (s : StoreStockModel T)
      → (req.qty_add ≡ negsuc n) ⊎ (req.qty_add ≡ pos 0)
      → return_across_expiry req s ≡ panicked
  unfolding return_across_expiry
  return_across_expiry_panic n req s e = ground arith

-- What the detail of an item holds, if there is one.
abbrev pub held_in : {T : Type 0} → Option (ProductStockModel T) → ℕ
held_in none = 0
held_in (some p) = held p.quantity.rsv_detail

module _ {T : Type 0} ⦃c : Chrono T⦄ where
  -- The item that a return by expiry is for, with its quantity afterwards.
  return_item_lem :
      (oid : String) (n : ℕ) (req : InventoryEditStockLevelDto T) (ps : List (ProductStockModel T))
      {p : ProductStockModel T}
      → find (is_same_item req) ps ≡ some p
      → AreSound oid ps
      → let (q, given) = try_return n p.quantity in
        let ps' = modify_first (is_same_item req) (λ x. record x { quantity = q }) ps in
        AreSound oid ps'
        × (booked_of req.product_id ps' + given ≡ booked_of req.product_id ps)
        × (held_of req.product_id ps' + given ≡ held_of req.product_id ps)
        × (given ≡ min (held p.quantity.rsv_detail) n)
        × (map fixed_part ps' ≡ map fixed_part ps)
  return_item_lem oid n req [] e v = cc
  return_item_lem oid n req (x ∷ ps) {p} e (v, vs) = ground (
    arith,
    try_return_lem n x.quantity v.0,
    try_return-IsOwnedBy oid n x.quantity v.1,
    return_item_lem oid n req ps {p = p},
  )

  -- What a return of `n` items of one expiry date promises, by how it ended.
  abbrev pub ReturnsItem :
      String
      → ℕ
      → InventoryEditStockLevelDto T
      → StoreStockModel T
      → Outcome (StoreStockModel T × Option StockReturnErrorReason)
      → Type 0
  ReturnsItem oid n req s panicked = ⊥
  ReturnsItem oid n req s (returned (s', none)) =
      (n ≤ held_in (find (is_same_item req) s.products))
      × (s'.store_id ≡ s.store_id)
      × AreSound oid s'.products
      × (booked_of req.product_id s'.products + n ≡ booked_of req.product_id s.products)
      × (held_of req.product_id s'.products + n ≡ held_of req.product_id s.products)
      × (map fixed_part s'.products ≡ map fixed_part s.products)
  ReturnsItem oid n req s (returned (s', some StockReturnErrorReason.not_exist)) =
      (s' ≡ s) × (find (is_same_item req) s.products ≡ none)
  ReturnsItem oid n req s (returned (s', some invalid_quantity)) =
      (s' ≡ s)
      × (find (is_same_item req) s.products ≢ none)
      × (held_in (find (is_same_item req) s.products) < n)

  -- A return of a positive number of pieces to the item of a given expiry never panics on a store
  -- whose items are sound for the order. Without an error the item held at least that number, and
  -- just that is given back. With an error the store is as before, and the reason tells whether the
  -- item is missing or holds too little.
  pub return_by_expiry-ReturnsItem :
      (oid : String) (n : ℕ) (req : InventoryEditStockLevelDto T) (s : StoreStockModel T)
      → req.qty_add ≡ pos n
      → 0 < n
      → AreSound oid s.products
      → ReturnsItem oid n req s (return_by_expiry req s)
  unfolding return_by_expiry
  return_by_expiry-ReturnsItem oid n req s e h v =
      elim (Option-cases (find (is_same_item req) s.products)) [
        | inl missing ↦ ground arith
        | inr (p, found) ↦ ground (arith, return_item_lem oid n req s.products {p = p} found v)
      ]
