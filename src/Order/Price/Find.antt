-- ===== src/Order/Price/Find.antt =====
-- Which price a request is for: `ProductPriceModel::find_product` and
-- `ProductPriceModelSet::find_product` of services/order/src/model/product_price.rs.
use mathlib.Core.List.{Memᴰ}
use e_commerce.Common.{
  ◌≡◌, refl, ◌∙◌, inl, inr, All, arith, Bool-cases, eqb_iff, find-found, ℕ, Bool, true, false, ◌&&◌,
  Option, none, some, List, [], ◌∷◌, String, ◌==◌, if◌then◌else◌, find,
}
use e_commerce.Common.Currency.{CurrencyDto}
use e_commerce.Common.Int.{ℤ}
use e_commerce.Order.Line.{ProdAttrPricingMap}
use e_commerce.Order.Price.{
  OlineProductAttrDto, OrderLineRsvReqDto, ProductPriceModel, map_key, lookup,
}

pub record ProductPriceModelSet (T : Type 0) : Type 0 where
  pub store_id : ℕ
  pub currency : CurrencyDto
  pub items : List (ProductPriceModel T)

abbrev pub has_key : String → List (String × ℤ) → Bool
has_key k vm = elim (lookup k vm) [ some v ↦ true | none ↦ false ]

abbrev pub all_keys : List (String × ℤ) → List OlineProductAttrDto → Bool
all_keys vm [] = true
all_keys vm (c ∷ cs) = has_key (map_key c) vm && all_keys vm cs

abbrev pub attr_match : ProdAttrPricingMap → Option (List OlineProductAttrDto) → Bool
attr_match pricing none = true
attr_match pricing (some []) = true
attr_match none (some (c ∷ cs)) = false
attr_match (some vm) (some (c ∷ cs)) = all_keys vm (c ∷ cs)

module _ {T : Type 0} where
  -- `ProductPriceModel::find_product`
  unfoldable pub is_price_of : OrderLineRsvReqDto → ProductPriceModel T → Bool
  is_price_of d m = m.product_id == d.product_id && attr_match m.attributes.pricing d.applied_attr

  -- `ProductPriceModelSet::find_product`
  unfoldable pub find_product :
      OrderLineRsvReqDto → ProductPriceModelSet T → Option (ProductPriceModel T)
  find_product d ms = if ms.store_id == d.seller_id then find (is_price_of d) ms.items else none

  -- `iter().find_map(f)` over the stores
  unfoldable pub find_price :
      OrderLineRsvReqDto → List (ProductPriceModelSet T) → Option (ProductPriceModel T)
  find_price d [] = none
  find_price d (ms ∷ mss) =
      let rest = find_price d mss in elim (find_product d ms) [ some m ↦ some m | none ↦ rest ]

-- The specification, without the order of the search: a price for a request is one of the seller's,
-- for the product, with an extra charge for each attribute that is chosen.
abbrev pub AreCharged : ProdAttrPricingMap → Option (List OlineProductAttrDto) → Type 0
AreCharged pricing none = Unit
AreCharged pricing (some []) = Unit
AreCharged none (some (c ∷ cs)) = ⊥
AreCharged (some vm) (some (c ∷ cs)) =
    All (λ a. (v : ℤ) × (lookup (map_key a) vm ≡ some v)) (c ∷ cs)

has_key-found :
    (k : String) (vm : List (String × ℤ)) → has_key k vm ≡ true → (v : ℤ) × (lookup k vm ≡ some v)
has_key-found k vm h = go (lookup k vm) refl h
  where
    go :
        (o : Option ℤ)
        → lookup k vm ≡ o
        → elim o [ some v ↦ true | none ↦ false ] ≡ true
        → (v : ℤ) × (lookup k vm ≡ some v)
    go none e h = ground (arith, h)
    go (some v) e h = (v, e)

all_keys-All :
    (vm : List (String × ℤ)) (cs : List OlineProductAttrDto)
    → all_keys vm cs ≡ true
    → All (λ a. (v : ℤ) × (lookup (map_key a) vm ≡ some v)) cs
all_keys-All vm [] h = tt
all_keys-All vm (c ∷ cs) h = elim (Bool-cases (has_key (map_key c) vm)) [
  | inl e ↦ (has_key-found (map_key c) vm e, all_keys-All vm cs (ground (arith, e, h)))
  | inr e ↦ ground (arith, e, h)
]

attr_match-AreCharged :
    (pricing : ProdAttrPricingMap) (applied : Option (List OlineProductAttrDto))
    → attr_match pricing applied ≡ true
    → AreCharged pricing applied
attr_match-AreCharged pricing none h = tt
attr_match-AreCharged pricing (some []) h = tt
attr_match-AreCharged none (some (c ∷ cs)) h = ground (arith, h)
attr_match-AreCharged (some vm) (some (c ∷ cs)) h = all_keys-All vm (c ∷ cs) h

module _ {T : Type 0} where
  abbrev pub IsPriceFor :
      OrderLineRsvReqDto → List (ProductPriceModelSet T) → ProductPriceModel T → Type 0
  IsPriceFor d mss m =
      (ms : ProductPriceModelSet T) × Memᴰ ms mss
      × (ms.store_id ≡ d.seller_id)
      × Memᴰ m ms.items
      × (m.product_id ≡ d.product_id)
      × AreCharged m.attributes.pricing d.applied_attr

  find_product-found :
      (d : OrderLineRsvReqDto) (ms : ProductPriceModelSet T) (m : ProductPriceModel T)
      → find_product d ms ≡ some m
      → (ms.store_id ≡ d.seller_id)
        × Memᴰ m ms.items
        × (m.product_id ≡ d.product_id)
        × AreCharged m.attributes.pricing d.applied_attr
  unfolding find_product is_price_of
  find_product-found d ms m h = elim (Bool-cases (ms.store_id == d.seller_id)) [
    | inr other ↦ ground (arith, rw other at h)
    | inl own ↦
        let (among, is) = find-found (is_price_of d) ms.items m (rw own at h) in
        elim (Bool-cases (m.product_id == d.product_id)) [
          | inr e ↦ ground (arith, rw e at is)
          | inl e ↦ (
            (eqb_iff ms.store_id d.seller_id).0 own,
            among,
            (eqb_iff m.product_id d.product_id).0 e,
            attr_match-AreCharged m.attributes.pricing d.applied_attr (rw e at is),
          )
        ]
  ]

  pub find_price-IsPriceFor :
      (d : OrderLineRsvReqDto) (mss : List (ProductPriceModelSet T)) (m : ProductPriceModel T)
      → find_price d mss ≡ some m
      → IsPriceFor d mss m
  unfolding find_price
  find_price-IsPriceFor d [] m h = ground (arith, h)
  find_price-IsPriceFor d (ms ∷ mss) m h =
      go (find_product d ms) refl h (find_price-IsPriceFor d mss m)
    where
      go :
          (o : Option (ProductPriceModel T))
          → find_product d ms ≡ o
          → elim o [ some x ↦ some x | none ↦ find_price d mss ] ≡ some m
          → (find_price d mss ≡ some m → IsPriceFor d mss m)
          → IsPriceFor d (ms ∷ mss) m
      go none e h later =
          let (x, among, own, item, same, charged) = later h in
          (x, Memᴰ.tail among, own, item, same, charged)
      go (some x) e h later =
          let (own, item, same, charged) = find_product-found d ms m (e ∙ h) in
          (ms, Memᴰ.head refl, own, item, same, charged)
