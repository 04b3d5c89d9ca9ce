-- ===== src/Order/Price/Edit/Turns.antt =====
-- The edits of the prices of a store in turn, as `ProductPriceModelSet::update` of
-- services/order/src/model/product_price.rs makes them: which prices it has afterwards.
use e_commerce.Common.{
  ℕ, ◌≤◌, ◌≡◌, refl, sym, ap, ◌∙◌, true, false, Option, none, some, List, [], ◌∷◌, length, All,
  ◌==◌, if◌then◌else◌, arith, Bool-cases, inl, inr, eqb_iff,
}
use e_commerce.Order.Policy.{is_some}
use e_commerce.Order.Line.{ProdAttriPriceModel}
use e_commerce.Order.Price.{ProductPriceModel}
use e_commerce.Order.Price.Edit.{ProductPriceEditDto, update_price}
use e_commerce.Order.Price.Edit.Charges.{AreDistinct, asked_attrs, attrs_try_from-Charges}
use e_commerce.Order.Price.Edit.Set.{
  Edit, missing, edited, failed, edit_of, Edited, is_saved, edit_first, push_edit, edit_all,
}

-- Of a price, what an edit sets.
abbrev pub Terms : Type 0 → Type 0
Terms T = ℕ × T × T × ProdAttriPriceModel T

module _ {T : Type 0} where
  abbrev pub terms_of : ProductPriceModel T → Terms T
  terms_of m = (m.price, m.start_after, m.end_before, m.attributes)

  abbrev pub asked : ProductPriceEditDto T → Terms T
  asked d = (d.price, d.start_after, d.end_before, asked_attrs d.attributes)

  -- The first price of a product that is not to be created.
  abbrev pub saved : ℕ → List (ProductPriceModel T) → Option (Terms T)
  saved pid [] = none
  saved pid (m ∷ ms) = if is_saved pid m then some (terms_of m) else saved pid ms

  abbrev pub last_asked : ℕ → Option (Terms T) → List (ProductPriceEditDto T) → Option (Terms T)
  last_asked pid acc [] = acc
  last_asked pid acc (d ∷ ds) =
      last_asked pid (if d.product_id == pid then some (asked d) else acc) ds

  abbrev pub IsKnown : List (ProductPriceModel T) → ProductPriceEditDto T → Type 0
  IsKnown ms d = is_some (saved d.product_id ms) ≡ true

  abbrev pub IsApart : ProductPriceEditDto T → Type 0
  IsApart d = AreDistinct d.attributes.extra_charge

  abbrev pub created_of : ProductPriceEditDto T → ProductPriceModel T
  created_of d = record {
    price = d.price;
    start_after = d.start_after;
    end_before = d.end_before;
    product_id = d.product_id;
    attributes = asked_attrs d.attributes;
    is_create = true;
  }

  abbrev pub Edits :
      ProductPriceEditDto T
      → List (ProductPriceModel T)
      → List (ProductPriceModel T)
      → Edit
      → Type 0
  Edits d ms ms' missing = saved d.product_id ms ≡ none
  Edits d ms ms' (failed e) = ¬ IsApart d
  Edits d ms ms' edited =
      IsKnown ms d
      × IsApart d
      × (length ms' ≡ length ms)
      × ((pid : ℕ) → saved pid ms' ≡ (if d.product_id == pid then some (asked d) else saved pid ms))

  found-Edits :
      (d : ProductPriceEditDto T) (m : ProductPriceModel T) (ms : List (ProductPriceModel T))
      → is_saved d.product_id m ≡ true
      → Edits d (m ∷ ms) (((update_price d m).0) ∷ ms) (edit_of (update_price d m).1)
  unfolding update_price
  found-Edits d m ms h = elim (attrs_try_from-Charges d.attributes) [
    | inl (apart, e) ↦ rw e (rw h refl, apart, refl, λ pid. ground (arith, h))
    | inr (same, (x, e)) ↦ rw e same
  ]

  later-Edits :
      (d : ProductPriceEditDto T) (m : ProductPriceModel T) (ms ms' : List (ProductPriceModel T))
      (r : Edit)
      → is_saved d.product_id m ≡ false
      → Edits d ms ms' r
      → Edits d (m ∷ ms) (m ∷ ms') r
  later-Edits d m ms ms' missing h e = rw h e
  later-Edits d m ms ms' (failed x) h e = e
  later-Edits d m ms ms' edited h (known, apart, n, sets) =
      (rw h known, apart, ground (arith, n), λ pid. ground (arith, h, sets pid))

  edit_first-Edits :
      (d : ProductPriceEditDto T) (ms : List (ProductPriceModel T))
      → Edits d ms (edit_first d ms).0 (edit_first d ms).1
  edit_first-Edits d [] = refl
  edit_first-Edits d (m ∷ ms) = elim (Bool-cases (is_saved d.product_id m)) [
    | inl h ↦ rw h (found-Edits d m ms h)
    | inr h ↦
        rw h (later-Edits d m ms (edit_first d ms).0 (edit_first d ms).1 h (edit_first-Edits d ms))
  ]

  -- How the edits in turn end.
  abbrev pub EditsAll :
      List (ProductPriceEditDto T) → List (ProductPriceModel T) → Edited T → Type 0
  EditsAll ds ms r =
      (r.num_updated ≤ length ds)
      × (r.num_updated ≡ length ds
          → All (IsKnown ms) ds
            × All IsApart ds
            × (r.es ≡ [])
            × (length r.items ≡ length ms)
            × ((pid : ℕ) → saved pid r.items ≡ last_asked pid (saved pid ms) ds))
      × (All (IsKnown ms) ds → All IsApart ds → r.num_updated ≡ length ds)

  IsKnown-kept :
      (d : ProductPriceEditDto T) (ms ms' : List (ProductPriceModel T))
      → IsKnown ms d
      → ((pid : ℕ) → saved pid ms' ≡ (if d.product_id == pid then some (asked d) else saved pid ms))
      → (x : ProductPriceEditDto T)
      → is_some (saved x.product_id ms') ≡ is_some (saved x.product_id ms)
  IsKnown-kept d ms ms' known sets x = elim (Bool-cases (d.product_id == x.product_id)) [
    | inl e ↦
        let same : d.product_id ≡ x.product_id = (eqb_iff d.product_id x.product_id).0 e in
        rw (sets x.product_id) (rw e (sym (rw same at known)))
    | inr e ↦ rw (sets x.product_id) (rw e refl)
  ]

  IsKnown-transfer :
      (d : ProductPriceEditDto T) (ms ms' : List (ProductPriceModel T))
      → IsKnown ms d
      → ((pid : ℕ) → saved pid ms' ≡ (if d.product_id == pid then some (asked d) else saved pid ms))
      → (ds : List (ProductPriceEditDto T))
      → (All (IsKnown ms') ds → All (IsKnown ms) ds) × (All (IsKnown ms) ds → All (IsKnown ms') ds)
  IsKnown-transfer d ms ms' known sets [] = (λ h. h, λ h. h)
  IsKnown-transfer d ms ms' known sets (x ∷ xs) =
      let (back, forth) = IsKnown-transfer d ms ms' known sets xs in
      (
        λ (h, hs). (sym (IsKnown-kept d ms ms' known sets x) ∙ h, back hs),
        λ (h, hs). (IsKnown-kept d ms ms' known sets x ∙ h, forth hs),
      )

  step-EditsAll :
      (d : ProductPriceEditDto T) (ds : List (ProductPriceEditDto T))
      (ms ms' : List (ProductPriceModel T)) (r : Edit) (rest : Edited T)
      → Edits d ms ms' r
      → EditsAll ds ms' rest
      → EditsAll (d ∷ ds) ms (push_edit r rest.es rest.num_updated rest.items)
  step-EditsAll d ds ms ms' missing rest gone (le, _, _) = (
    omega (arith, le),
    λ e. absurd (omega (arith, le, e)),
    λ (k, ks) aps. ground (arith, rw gone at k),
  )
  step-EditsAll d ds ms ms' (failed x) rest bad (le, _, _) =
      (omega (arith, le), λ e. absurd (omega (arith, le, e)), λ ks (a, aps). absurd (bad a))
  step-EditsAll d ds ms ms' edited rest (known, apart, n, sets) (le, all, total) =
      let (back, forth) = IsKnown-transfer d ms ms' known sets ds in
      (
        omega (arith, le),
        λ e.
            let (ks, aps, es, len, last) = all (omega (arith, e)) in
            (
              (known, back ks),
              (apart, aps),
              es,
              omega (arith, len, n),
              λ pid. last pid ∙ ap (λ (acc : Option (Terms T)). last_asked pid acc ds) (sets pid),
            ),
        λ (k, ks) (a, aps). omega (arith, total (forth ks) aps),
      )

  pub edit_all-EditsAll :
      (ds : List (ProductPriceEditDto T)) (ms : List (ProductPriceModel T))
      → EditsAll ds ms (edit_all ds ms)
  edit_all-EditsAll [] ms = (omega arith, λ e. (tt, tt, refl, refl, λ pid. refl), λ ks aps. refl)
  edit_all-EditsAll (d ∷ ds) ms =
      step-EditsAll d ds ms (edit_first d ms).0 (edit_first d ms).1
        (edit_all ds (edit_first d ms).0) (edit_first-Edits d ms)
        (edit_all-EditsAll ds (edit_first d ms).0)
