-- ===== src/Order/Stock/Level/Update.antt =====
-- Edits of the stock: what `StockLevelModelSet::update` keeps, and where it oversells.
use e_commerce.Common.{
  ℕ, suc, ◌+◌, ◌-◌, ◌≤◌, ◌<◌, ◌≡◌, ◌↔◌, Option, none, some, List, [], ◌∷◌, min, arith, u32_mod, All,
  add32-eq, add32, sub32, Option-cases, Bool-cases, true, refl, inl, inr, sum_of,
}
use mathlib.Core.Option
use mathlib.Core.Path.{subst}
use e_commerce.Common.Int.{ℤ, pos, negsuc}
use e_commerce.Common.Chrono.{Chrono}
use e_commerce.Order.Dto.{InventoryEditStockLevelDto}
use e_commerce.Order.Stock.Quantity.{StockQuantityModel, IsValid, free, num_avail}
use e_commerce.Order.Stock.Store.{ProductStockModel, StoreStockModel}
use e_commerce.Order.Stock.Level.{
  adjust, initial, is_edited, update_products, update_stores, update,
}

-- How much of an item an edit leaves free; a cancellation stops at what is not cancelled yet.
pub adjust-free :
    (d : ℤ) (q : StockQuantityModel)
    → IsValid q
    → (n : ℕ) → d ≡ pos n
    → q.total + n < u32_mod
    → IsValid (adjust d q) × (free (adjust d q) ≡ free q + n)
unfolding adjust
adjust-free d q v n e h = ground (arith, add32-eq q.total n)

-- A cancellation keeps a sound item sound exactly when it does not reach into the booked quantity.
pub cancel-IsValid_iff :
    (k : ℕ) (q : StockQuantityModel)
    → IsValid q
    → IsValid (adjust (negsuc k) q) ↔ (min (q.total - q.cancelled) (suc k) ≤ free q)
unfolding adjust add32 sub32
cancel-IsValid_iff k q v = (λ w. omega (arith, w.within), λ h. ground arith)

-- A cancellation that reaches into the booked quantity of a sound item makes the available number
-- wrap around: it is 2 ^ 32 less what is missing.
pub cancel_oversells :
    (k : ℕ) (q : StockQuantityModel)
    → IsValid q
    → free q < min (q.total - q.cancelled) (suc k)
    → num_avail (adjust (negsuc k) q) + (min (q.total - q.cancelled) (suc k) - free q) ≡ u32_mod
unfolding adjust num_avail add32 sub32
cancel_oversells k q v h = ground arith

module _ {T : Type 0} ⦃c : Chrono T⦄ where
  -- An item of the same product, whose expiry is less than a second away.
  abbrev pub IsEdited : InventoryEditStockLevelDto T → ProductStockModel T → Type 0
  IsEdited d p = (p.id_ ≡ d.product_id) × (c.secs_between p.expiry d.expiry ≡ pos 0)

  is_edited-IsEdited :
      (d : InventoryEditStockLevelDto T) (p : ProductStockModel T)
      → (is_edited d p ≡ true) ↔ IsEdited d p
  is_edited-IsEdited d p = go (c.secs_between p.expiry d.expiry) refl
    where
      go : (z : ℤ) → c.secs_between p.expiry d.expiry ≡ z → (is_edited d p ≡ true) ↔ IsEdited d p
      go (pos n) h = ground (arith, h)
      go (negsuc n) h = ground (arith, h)

  abbrev pub IsCancelling : InventoryEditStockLevelDto T → Type 0
  IsCancelling d = (n : ℕ) × (d.qty_add ≡ negsuc n)

  initial-IsCancelling :
      (d : InventoryEditStockLevelDto T) → (initial d.qty_add ≡ none) ↔ IsCancelling d
  initial-IsCancelling d = go d.qty_add refl
    where
      go : (z : ℤ) → d.qty_add ≡ z → (initial z ≡ none) ↔ IsCancelling d
      go (pos n) h = (λ e. ground (arith, e), λ (k, e). ground (arith, h, e))
      go (negsuc n) h = (λ e. (n, h), λ e. refl)

  -- An edit of a store is refused exactly when the number that it adds is negative, and no item of
  -- the store is of its product with an expiry that is less than a second from its own.
  pub update_products-none_iff :
      (d : InventoryEditStockLevelDto T) (ps : List (ProductStockModel T))
      → (update_products d ps ≡ none) ↔ (IsCancelling d × All (λ p. ¬ IsEdited d p) ps)
  unfolding update_products
  update_products-none_iff d [] = elim (Option-cases (initial d.qty_add)) [
    | inl e ↦ rw e (λ h. ((initial-IsCancelling d).0 e, tt), λ h. refl)
    | inr (q, e) ↦
        rw e (λ h. ground (arith, h), λ (h, all). ground (arith, e, (initial-IsCancelling d).1 h))
  ]
  update_products-none_iff d (p ∷ ps) = elim (Bool-cases (is_edited d p)) [
    | inl e ↦ rw e (
      λ h. ground (arith, h),
      λ (h, (differs, all)). absurd (differs ((is_edited-IsEdited d p).0 e)),
    )
    | inr e ↦
        let differs : ¬ IsEdited d p = λ same. ground (arith, e, (is_edited-IsEdited d p).1 same) in
        let (there, back) = update_products-none_iff d ps in
        elim (Option-cases (update_products d ps)) [
          | inl e' ↦ rw (e, e') (λ h. ((there e').0, (differs, (there e').1)), λ h. refl)
          | inr (qs, e') ↦
              rw (e, e')
                (λ h. ground (arith, h), λ (h, (x, all)). ground (arith, e', back (h, all)))
        ]
  ]

-- What a list of edits adds to the stock; a cancellation adds nothing.
abbrev pub added : {T : Type 0} → InventoryEditStockLevelDto T → ℕ
added d = elim d.qty_add [ pos n ↦ n | negsuc n ↦ 0 ]

abbrev pub IsAddition : {T : Type 0} → InventoryEditStockLevelDto T → Type 0
IsAddition d = d.qty_add ≡ pos (added d)

module _ {T : Type 0} where
  -- The item is sound, and can take `b` more pieces.
  abbrev pub HasRoom : ℕ → ProductStockModel T → Type 0
  HasRoom b p = IsValid p.quantity × (p.quantity.total + b < u32_mod)

  abbrev pub HaveRoom : ℕ → List (StoreStockModel T) → Type 0
  HaveRoom b = All λ s. All (HasRoom b) s.products

  -- All pieces of a store, and of all stores.
  abbrev pub pieces : List (ProductStockModel T) → ℕ
  pieces = sum_of λ p. p.quantity.total

  abbrev pub all_pieces : List (StoreStockModel T) → ℕ
  all_pieces = sum_of λ s. pieces s.products

  -- The edits went through, and added `n` pieces; there is room for `b` more.
  abbrev pub Adds : ℕ → ℕ → List (StoreStockModel T) → Option (List (StoreStockModel T)) → Type 0
  Adds b n ss none = ⊥
  Adds b n ss (some ss') = HaveRoom b ss' × (all_pieces ss' ≡ all_pieces ss + n)

  abbrev AddsItem :
      ℕ → ℕ → List (ProductStockModel T) → Option (List (ProductStockModel T)) → Type 0
  AddsItem b n ps none = ⊥
  AddsItem b n ps (some ps') = All (HasRoom b) ps' × (pieces ps' ≡ pieces ps + n)

  HasRoom-le :
      (a b : ℕ) (ps : List (ProductStockModel T)) → All (HasRoom (a + b)) ps → All (HasRoom b) ps
  HasRoom-le a b [] h = tt
  HasRoom-le a b (p ∷ ps) (h, hs) = ((h.0, omega arith), HasRoom-le a b ps hs)

  HaveRoom-le : (a b : ℕ) (ss : List (StoreStockModel T)) → HaveRoom (a + b) ss → HaveRoom b ss
  HaveRoom-le a b [] h = tt
  HaveRoom-le a b (s ∷ ss) (h, hs) = (HasRoom-le a b s.products h, HaveRoom-le a b ss hs)

adjust_total :
    {T : Type 0} (d : InventoryEditStockLevelDto T) (n : ℕ) (q : StockQuantityModel)
    → d.qty_add ≡ pos n
    → IsValid q
    → q.total + n < u32_mod
    → IsValid (adjust d.qty_add q) × ((adjust d.qty_add q).total ≡ q.total + n)
unfolding adjust
adjust_total d n q e v h = ground (arith, add32-eq q.total n)

module _ {T : Type 0} ⦃c : Chrono T⦄ where
  update_products-AddsItem :
      (d : InventoryEditStockLevelDto T) (b n : ℕ) (ps : List (ProductStockModel T))
      → d.qty_add ≡ pos n
      → n + b < u32_mod
      → All (HasRoom (n + b)) ps
      → AddsItem b n ps (update_products d ps)
  unfolding update_products
  update_products-AddsItem d b n [] e h v = ground arith
  update_products-AddsItem d b n (p ∷ ps) e h (v, vs) = ground (
    arith,
    adjust_total d n p.quantity e v.0,
    HasRoom-le n b ps vs,
    update_products-AddsItem d b n ps e h vs,
  )

  update_stores-Adds :
      (d : InventoryEditStockLevelDto T) (b n : ℕ) (ss : List (StoreStockModel T))
      → d.qty_add ≡ pos n
      → n + b < u32_mod
      → HaveRoom (n + b) ss
      → Adds b n ss (update_stores d ss)
  unfolding update_stores
  update_stores-Adds d b n [] e h v = ground (arith, update_products-AddsItem d b n [] e h tt)
  update_stores-Adds d b n (s ∷ ss) e h (v, vs) = ground (
    arith,
    update_products-AddsItem d b n s.products e h v,
    HasRoom-le n b s.products v,
    HaveRoom-le n b ss vs,
    update_stores-Adds d b n ss e h vs,
  )

  -- Additions to stock whose numbers fit a u32 together with every total go through, keep every
  -- item sound, and add just their numbers to all pieces.
  pub update-Adds :
      (ds : List (InventoryEditStockLevelDto T)) (ss : List (StoreStockModel T))
      → All IsAddition ds
      → sum_of added ds < u32_mod
      → HaveRoom (sum_of added ds) ss
      → Adds 0 (sum_of added ds) ss (update ds ss)
  unfolding update Option.bind
  update-Adds [] ss a h v = (v, omega arith)
  update-Adds (d ∷ ds) ss (a, as_) h v = elim (Option-cases (update_stores d ss)) [
    | inl e ↦ ground (arith, update_stores-Adds d (sum_of added ds) (added d) ss a h v)
    | inr (ss', e) ↦
        let step : Adds (sum_of added ds) (added d) ss (some ss') =
          subst (Adds (sum_of added ds) (added d) ss) e
            (update_stores-Adds d (sum_of added ds) (added d) ss a h v) in
        rw e (ground (arith, step, update-Adds ds ss' as_ (omega arith) step.0))
  ]
