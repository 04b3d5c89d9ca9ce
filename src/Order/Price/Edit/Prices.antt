-- ===== src/Order/Price/Edit/Prices.antt =====
-- Which prices a store has after `ProductPriceModelSet::update` of
-- services/order/src/model/product_price.rs.
use e_commerce.Common.{
  ℕ, ◌≡◌, refl, ap, false, List, [], ◌∷◌, ◌++◌, length, All, map, ◌==◌, arith, Bool-cases, ◌⊎◌, inl,
  inr, eqb_iff,
}
use e_commerce.Common.Currency.{CurrencyDto}
use e_commerce.Common.Outcome.{Result, ok, err}
use e_commerce.Order.Price.{ProductPriceModel}
use e_commerce.Order.Price.Find.{ProductPriceModelSet}
use e_commerce.Order.Price.Edit.{ProductPriceEditDto, AppError, price_try_from}
use e_commerce.Order.Price.Edit.Charges.{attrs_try_from-Charges}
use e_commerce.Order.Price.Edit.Set.{
  Edited, Created, edit_all, create_all, nonexist_obj, settle_errors, update,
}
use e_commerce.Order.Price.Edit.Turns.{
  saved, last_asked, IsKnown, IsApart, created_of, EditsAll, edit_all-EditsAll,
}

module _ {T : Type 0} where
  -- The prices that are made: all of them, or there is an error.
  abbrev CreatesAll : List (ProductPriceEditDto T) → Created T → Type 0
  CreatesAll ds r =
      ((r.es ≡ []) × All IsApart ds × (r.new_items ≡ map created_of ds))
      ⊎ (¬ (r.es ≡ []) × ¬ All IsApart ds)

  create_all-CreatesAll : (ds : List (ProductPriceEditDto T)) → CreatesAll ds (create_all ds)
  unfolding price_try_from
  create_all-CreatesAll [] = inl (refl, tt, refl)
  create_all-CreatesAll (d ∷ ds) = elim (attrs_try_from-Charges d.attributes) [
    | inr (same, (x, e)) ↦ rw e (inr (λ h. ground (arith, h), λ (a, aps). same a))
    | inl (apart, e) ↦ elim (create_all-CreatesAll ds) [
      | inl (es, aps, new) ↦
          rw e (
            inl (es, (apart, aps), ap (λ (ms : List (ProductPriceModel T)). created_of d ∷ ms) new))
      | inr (es, aps) ↦ rw e (inr (es, λ (b, bs). aps bs))
    ]
  ]

  -- What becomes of the prices of a store, whose edits `us` and new prices `cs` are sent.
  pub Prices :
      ProductPriceModelSet T
      → List (ProductPriceEditDto T)
      → List (ProductPriceEditDto T)
      → CurrencyDto
      → Result AppError (ProductPriceModelSet T)
      → Type 0
  Prices ms us cs currency (err e) = ¬ (All (IsKnown ms.items) us × All IsApart us × All IsApart cs)
  Prices ms us cs currency (ok ms') =
      All (IsKnown ms.items) us
      × All IsApart us
      × All IsApart cs
      × (ms'.store_id ≡ ms.store_id)
      × (ms'.currency ≡ currency)
      × ((items : List (ProductPriceModel T)) × (ms'.items ≡ items ++ map created_of cs)
          × (length items ≡ length ms.items)
          × ((pid : ℕ) → saved pid items ≡ last_asked pid (saved pid ms.items) us))

  settled-Prices :
      (ms : ProductPriceModelSet T) (us cs : List (ProductPriceEditDto T)) (currency : CurrencyDto)
      (u : Edited T) (c : Created T)
      → EditsAll us ms.items u
      → CreatesAll cs c
      → u.num_updated ≡ length us
      → Prices ms us cs currency (
          settle_errors
            (record { store_id = ms.store_id; currency = currency; items = u.items ++ c.new_items })
            (u.es ++ c.es))
  unfolding Prices
  settled-Prices ms us cs currency u c (le, all, total) made e =
      let (ks, aps, ues, len, last) = all e in
      elim made [
        | inl (ces, bps, new) ↦
            rw (ues, ces)
              (
                ks,
                aps,
                bps,
                refl,
                refl,
                (u.items, ap (λ (ns : List (ProductPriceModel T)). u.items ++ ns) new, len, last),
              )
        | inr (ces, bad) ↦ rw ues (refused c.es ces bad)
      ]
    where
      refused :
          (es : List AppError)
          → ¬ (es ≡ [])
          → ¬ All IsApart cs
          → Prices ms us cs currency (
              settle_errors
                (record {
                  store_id = ms.store_id;
                  currency = currency;
                  items = u.items ++ c.new_items;
                })
                es)
      refused [] h bad = absurd (h refl)
      refused (x ∷ xs) h bad = λ (k, a, b). bad b

  -- The prices of a store are edited exactly if each product to be edited has a saved price, and no
  -- edited or new price names an attribute twice. Then each edited product has, at its first saved
  -- price, the amount, the period and the extra charges of its last edit, and the others keep
  -- theirs; the new prices follow with the extra charges that are sent; and the store has the new
  -- currency.
  pub update-Prices :
      (ms : ProductPriceModelSet T) (us cs : List (ProductPriceEditDto T)) (currency : CurrencyDto)
      → Prices ms us cs currency (update ms us cs currency)
  unfolding update Prices
  update-Prices ms us cs currency =
      let u = edit_all us ms.items in
      let edits = edit_all-EditsAll us ms.items in
      elim (Bool-cases (u.num_updated == length us)) [
        | inl e ↦ rw e (
            settled-Prices ms us cs currency u (create_all cs) edits (create_all-CreatesAll cs)
              ((eqb_iff u.num_updated (length us)).0 e))
        | inr e ↦ rw e (other ms us cs currency u edits e)
      ]
    where
      other :
          (ms : ProductPriceModelSet T) (us cs : List (ProductPriceEditDto T))
          (currency : CurrencyDto) (u : Edited T)
          → EditsAll us ms.items u
          → (u.num_updated == length us) ≡ false
          → Prices ms us cs currency (err nonexist_obj)
      other ms us cs currency u (le, all, total) e = λ (k, a, b). ground (arith, e, total k a)
