-- ===== src/Order/Price/Edit/Charges.antt =====
-- The extra charges of an edited price, against the list that is sent: what
-- `TryFrom<&ProdAttrPriceSetDto>` of services/order/src/model/product_price.rs makes of it.
use e_commerce.Common.{
  ◌≡◌, refl, sym, ap, ◌∙◌, true, false, none, some, List, [], ◌∷◌, ◌++◌, All, map, arith,
  Bool-cases, ◌⊎◌, inl, inr, String, str_eq, if◌then◌else◌,
}
use e_commerce.Common.Int.{ℤ}
use e_commerce.Common.Outcome.{ok, err, Result-cases}
use e_commerce.Order.Line.{ProdAttrPricingMap, ProdAttriPriceModel}
use e_commerce.Order.Price.{insert}
use e_commerce.Order.Price.Find.{has_key}
use e_commerce.Order.Price.Edit.{
  ProductAttrPriceDto, ProdAttrPriceSetDto, AppError, key_of, charge_map, attrs_try_from,
}

abbrev pub asked_entry : ProductAttrPriceDto → String × ℤ
asked_entry i = (key_of i, i.price)

-- No two of the items have the same attribute.
abbrev pub AreDistinct : List ProductAttrPriceDto → Type 0
AreDistinct [] = Unit
AreDistinct (i ∷ is) = All (λ j. str_eq (key_of i) (key_of j) ≡ false) is × AreDistinct is

abbrev pub asked_pricing : List ProductAttrPriceDto → ProdAttrPricingMap
asked_pricing [] = none
asked_pricing (i ∷ is) = some (map asked_entry (i ∷ is))

abbrev pub asked_attrs : {T : Type 0} → ProdAttrPriceSetDto T → ProdAttriPriceModel T
asked_attrs d = record { pricing = asked_pricing d.extra_charge; last_update = d.last_update }

abbrev AreFresh : List (String × ℤ) → List ProductAttrPriceDto → Type 0
AreFresh vm is = All (λ j. has_key (key_of j) vm ≡ false) is

has_key-cons :
    (k j : String) (w : ℤ) (vm : List (String × ℤ))
    → has_key k ((j, w) ∷ vm) ≡ (if str_eq j k then true else has_key k vm)
has_key-cons k j w vm = ground arith

insert-fresh :
    (k : String) (v : ℤ) (vm : List (String × ℤ))
    → has_key k vm ≡ false
    → insert k v vm ≡ vm ++ (k, v) ∷ []
insert-fresh k v [] h = refl
insert-fresh k v ((j, w) ∷ vm) h = ground (arith, h, insert-fresh k v vm)

has_key-snoc :
    (vm : List (String × ℤ)) (k l : String) (v : ℤ)
    → has_key l (vm ++ (k, v) ∷ []) ≡ (if has_key l vm then true else str_eq k l)
has_key-snoc [] k l v = ground arith
has_key-snoc ((j, w) ∷ vm) k l v =
    ground
      (arith, has_key-cons l j w vm, has_key-cons l j w (vm ++ (k, v) ∷ []), has_key-snoc vm k l v)

append-nil : (vm : List (String × ℤ)) → vm ++ [] ≡ vm
append-nil [] = refl
append-nil (x ∷ vm) = ap (λ (m : List (String × ℤ)). x ∷ m) (append-nil vm)

append-snoc :
    (vm : List (String × ℤ)) (e : String × ℤ) (es : List (String × ℤ))
    → (vm ++ e ∷ []) ++ es ≡ vm ++ e ∷ es
append-snoc [] e es = refl
append-snoc (x ∷ vm) e es = ap (λ (m : List (String × ℤ)). x ∷ m) (append-snoc vm e es)

AreFresh-split :
    (k : String) (v : ℤ) (vm : List (String × ℤ)) (is : List ProductAttrPriceDto)
    → AreFresh (vm ++ (k, v) ∷ []) is
    → All (λ j. str_eq k (key_of j) ≡ false) is × AreFresh vm is
AreFresh-split k v vm [] h = (tt, tt)
AreFresh-split k v vm (i ∷ is) (h, hs) =
    let (ds, fs) = AreFresh-split k v vm is hs in
    (
      (ground (arith, h, has_key-snoc vm k (key_of i) v), ds),
      (ground (arith, h, has_key-snoc vm k (key_of i) v), fs),
    )

AreFresh-join :
    (k : String) (v : ℤ) (vm : List (String × ℤ)) (is : List ProductAttrPriceDto)
    → All (λ j. str_eq k (key_of j) ≡ false) is
    → AreFresh vm is
    → AreFresh (vm ++ (k, v) ∷ []) is
AreFresh-join k v vm [] h f = tt
AreFresh-join k v vm (i ∷ is) (h, hs) (f, fs) =
    (ground (arith, h, f, has_key-snoc vm k (key_of i) v), AreFresh-join k v vm is hs fs)

-- The loop takes the items as they are, if they are apart and new, and only then.
charge_map-distinct :
    (is : List ProductAttrPriceDto) (vm : List (String × ℤ))
    → AreDistinct is
    → AreFresh vm is
    → charge_map is vm ≡ ok (vm ++ map asked_entry is)
unfolding charge_map
charge_map-distinct [] vm ds fs = ap ok (sym (append-nil vm))
charge_map-distinct (i ∷ is) vm (d, ds) (f, fs) =
    let new : insert (key_of i) i.price vm ≡ vm ++ asked_entry i ∷ [] =
      insert-fresh (key_of i) i.price vm f in
    rw f (
      rw new (
        charge_map-distinct is (vm ++ asked_entry i ∷ []) ds
          (AreFresh-join (key_of i) i.price vm is d fs)
        ∙ ap ok (append-snoc vm (asked_entry i) (map asked_entry is))))

charge_map-ok :
    (is : List ProductAttrPriceDto) (vm vm' : List (String × ℤ))
    → charge_map is vm ≡ ok vm'
    → AreDistinct is × AreFresh vm is
unfolding charge_map
charge_map-ok [] vm vm' e = (tt, tt)
charge_map-ok (i ∷ is) vm vm' e = elim (Bool-cases (has_key (key_of i) vm)) [
  | inl f ↦ ground (arith, rw f at e)
  | inr f ↦
      let new : insert (key_of i) i.price vm ≡ vm ++ asked_entry i ∷ [] =
        insert-fresh (key_of i) i.price vm f in
      let (ds, fs) = charge_map-ok is (vm ++ asked_entry i ∷ []) vm' (rw (f, new) at e) in
      let (d, gs) = AreFresh-split (key_of i) i.price vm is fs in ((d, ds), (f, gs))
]

module _ {T : Type 0} where
  -- Either the charges are taken as they are, or two of them are for one attribute.
  abbrev pub Charges : ProdAttrPriceSetDto T → Type 0
  Charges d =
      (AreDistinct d.extra_charge × (attrs_try_from d ≡ ok (asked_attrs d)))
      ⊎ (¬ AreDistinct d.extra_charge × ((e : AppError) × (attrs_try_from d ≡ err e)))

  attrs_of-Charges :
      (t : T) (is : List ProductAttrPriceDto)
      → Charges (record { extra_charge = is; last_update = t })
  unfolding attrs_try_from
  attrs_of-Charges t [] = inl (tt, refl)
  attrs_of-Charges t (i ∷ is) = elim (Result-cases (charge_map (i ∷ is) [])) [
    | inl (vm, e) ↦
        let (ds, fs) = charge_map-ok (i ∷ is) [] vm e in
        inl (ds, rw (charge_map-distinct (i ∷ is) [] ds fs) refl)
    | inr (x, e) ↦ inr (
      (λ ds.
          let same : err x ≡ ok (map asked_entry (i ∷ is)) =
            sym e ∙ charge_map-distinct (i ∷ is) [] ds (fresh (i ∷ is)) in
          ground (arith, same)),
      (x, rw e refl),
    )
  ]
    where
      fresh : (js : List ProductAttrPriceDto) → AreFresh [] js
      fresh [] = tt
      fresh (j ∷ js) = (refl, fresh js)

  pub attrs_try_from-Charges : (d : ProdAttrPriceSetDto T) → Charges d
  attrs_try_from-Charges d = attrs_of-Charges d.last_update d.extra_charge
