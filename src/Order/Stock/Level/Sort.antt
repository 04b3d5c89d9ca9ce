-- ===== src/Order/Stock/Level/Sort.antt =====
-- The order of the products in a store: `sort_by_expiry` sorts, and moves stock nowhere.
use e_commerce.Common.{
  ℕ, ◌+◌, ◌≡◌, refl, Bool, true, false, ◌⊎◌, inl, inr, List, [], ◌∷◌, arith, All, sum_of,
  Bool-cases,
}
use e_commerce.Common.Chrono.{Chrono, IsLinear}
use e_commerce.Order.Stock.Store.{ProductStockModel}
use e_commerce.Order.Stock.Level.{insert_by, sort_by, expires_before}

module _ {T : Type 0} where
  abbrev pub IsSorted :
      (ProductStockModel T → ProductStockModel T → Bool) → List (ProductStockModel T) → Type 0
  IsSorted le [] = Unit
  IsSorted le (x ∷ xs) = All (λ y. le x y ≡ true) xs × IsSorted le xs

module _ {T : Type 0} ⦃c : Chrono T⦄ where
  insert_by-sum_of :
      (f : ProductStockModel T → ℕ) (le : ProductStockModel T → ProductStockModel T → Bool)
      (p : ProductStockModel T) (ps : List (ProductStockModel T))
      → sum_of f (insert_by le p ps) ≡ f p + sum_of f ps
  insert_by-sum_of f le p [] = refl
  insert_by-sum_of f le p (x ∷ xs) = ground (arith, insert_by-sum_of f le p xs)

  -- Sorting keeps every sum over the products, so it neither loses an item nor doubles one.
  pub sort_by-sum_of :
      (f : ProductStockModel T → ℕ) (le : ProductStockModel T → ProductStockModel T → Bool)
      (ps : List (ProductStockModel T))
      → sum_of f (sort_by le ps) ≡ sum_of f ps
  unfolding sort_by
  sort_by-sum_of f le [] = refl
  sort_by-sum_of f le (p ∷ ps) =
      omega (arith, insert_by-sum_of f le p (sort_by le ps), sort_by-sum_of f le ps)

  insert_by-All :
      (P : ProductStockModel T → Type 0) (le : ProductStockModel T → ProductStockModel T → Bool)
      (p : ProductStockModel T) (ps : List (ProductStockModel T))
      → P p
      → All P ps
      → All P (insert_by le p ps)
  insert_by-All P le p [] h hs = (h, tt)
  insert_by-All P le p (x ∷ xs) h (hx, hs) = elim (Bool-cases (le p x)) [
    | inl e ↦ rw e (h, (hx, hs))
    | inr e ↦ rw e (hx, insert_by-All P le p xs h hs)
  ]

  pub sort_by-All :
      (P : ProductStockModel T → Type 0) (le : ProductStockModel T → ProductStockModel T → Bool)
      (ps : List (ProductStockModel T))
      → All P ps
      → All P (sort_by le ps)
  unfolding sort_by
  sort_by-All P le [] h = tt
  sort_by-All P le (p ∷ ps) (h, hs) =
      insert_by-All P le p (sort_by le ps) h (sort_by-All P le ps hs)

  module _ (laws : IsLinear T) where
    open laws use {le_total, le_trans}

    expires_before_total :
        (asc : Bool) (a b : ProductStockModel T)
        → (expires_before asc a b ≡ true) ⊎ (expires_before asc b a ≡ true)
    expires_before_total true a b = le_total a.expiry b.expiry
    expires_before_total false a b = le_total b.expiry a.expiry

    expires_before_trans :
        (asc : Bool) (x y z : ProductStockModel T)
        → expires_before asc x y ≡ true
        → expires_before asc y z ≡ true
        → expires_before asc x z ≡ true
    expires_before_trans true x y z h k = le_trans x.expiry y.expiry z.expiry h k
    expires_before_trans false x y z h k = le_trans z.expiry y.expiry x.expiry k h

    All-before :
        (asc : Bool) (p x : ProductStockModel T) (xs : List (ProductStockModel T))
        → expires_before asc p x ≡ true
        → All (λ y. expires_before asc x y ≡ true) xs
        → All (λ y. expires_before asc p y ≡ true) xs
    All-before asc p x [] h hs = tt
    All-before asc p x (y ∷ ys) h (hy, hs) =
        (expires_before_trans asc p x y h hy, All-before asc p x ys h hs)

    insert_by-IsSorted :
        (asc : Bool) (p : ProductStockModel T) (ps : List (ProductStockModel T))
        → IsSorted (expires_before asc) ps
        → IsSorted (expires_before asc) (insert_by (expires_before asc) p ps)
    insert_by-IsSorted asc p [] h = (tt, tt)
    insert_by-IsSorted asc p (x ∷ xs) (hx, hs) = elim (Bool-cases (expires_before asc p x)) [
      | inl e ↦ rw e ((e, All-before asc p x xs e hx), (hx, hs))
      | inr e ↦
          let flip : expires_before asc x p ≡ true = ground (arith, expires_before_total asc p x) in
          rw e (
            insert_by-All (λ y. expires_before asc x y ≡ true) (expires_before asc) p xs flip hx,
            insert_by-IsSorted asc p xs hs,
          )
    ]

    -- Where the order of instants is linear, the products stand by their expiry after sorting, in
    -- the direction that is asked for.
    pub sort_by-IsSorted :
        (asc : Bool) (ps : List (ProductStockModel T))
        → IsSorted (expires_before asc) (sort_by (expires_before asc) ps)
    unfolding sort_by
    sort_by-IsSorted asc [] = tt
    sort_by-IsSorted asc (p ∷ ps) =
        insert_by-IsSorted asc p (sort_by (expires_before asc) ps) (sort_by-IsSorted asc ps)
