-- ===== src/Order/Price/Charge.antt =====
-- What a price is made of: the base price and the charges of the chosen attributes.
use e_commerce.Common.{
  ◌≡◌, ◌≤◌, refl, Bool, false, Option, none, some, List, [], ◌∷◌, String, arith, str_eq, str_eq_iff,
  if◌then◌else◌, Option-cases, inl, inr, ◌⊎◌, mul32, ◌||◌,
}
use e_commerce.Common.Int.{ℤ, pos, ◌+ℤ◌}
use e_commerce.Common.Outcome.{Result, ok, err, ◌>>?◌}
use e_commerce.Order.Line.{ProdAttrPricingMap, ProdAttriPriceModel, OrderLinePriceModel}
use e_commerce.Order.Price.{
  AppErrorCode, invalid_input, data_corruption, OlineProductAttrDto, OrderLineRsvReqDto,
  ProductPriceModel, map_key, lookup, insert, try_sum, total_amount, choose, extract_from,
  extract_attributes, finalize_price,
}

-- The sum of the extra charges.
abbrev pub sum_charges : List (String × ℤ) → ℤ
sum_charges [] = pos 0
sum_charges ((k, v) ∷ m) = v +ℤ sum_charges m

abbrev pub charges : ProdAttrPricingMap → ℤ
charges none = pos 0
charges (some m) = sum_charges m

abbrev IsSum : ℤ → List (String × ℤ) → Option ℤ → Type 0
IsSum acc m none = Unit
IsSum acc m (some z) = z ≡ acc +ℤ sum_charges m

+ℤ-assoc : (a b c : ℤ) → (a +ℤ b) +ℤ c ≡ a +ℤ (b +ℤ c)
unfolding ◌+ℤ◌
+ℤ-assoc a b c = ground arith

+ℤ-zero : (a : ℤ) → a +ℤ pos 0 ≡ a
unfolding ◌+ℤ◌
+ℤ-zero a = ground arith

try_sum-IsSum : (acc : ℤ) (m : List (String × ℤ)) → IsSum acc m (try_sum (some acc) m)
try_sum-IsSum acc [] = ground (arith, +ℤ-zero acc)
try_sum-IsSum acc ((k, v) ∷ m) =
    ground (arith, +ℤ-assoc acc v (sum_charges m), try_sum-IsSum (acc +ℤ v) m)

-- Whether an attribute with the key `k` is among the chosen ones.
abbrev pub is_chosen : String → List OlineProductAttrDto → Bool
is_chosen k [] = false
is_chosen k (c ∷ cs) = str_eq (map_key c) k || is_chosen k cs

-- The chosen charges at a key, by how the choice ended.
abbrev pub Chooses :
    List (String × ℤ)
    → List OlineProductAttrDto
    → List (String × ℤ)
    → String
    → Option (List (String × ℤ))
    → Type 0
Chooses vm cs acc k none = Unit
Chooses vm cs acc k (some m) = lookup k m ≡ (if is_chosen k cs then lookup k vm else lookup k acc)

lookup-insert :
    (k j : String) (v : ℤ) (m : List (String × ℤ))
    → lookup k (insert j v m) ≡ (if str_eq j k then some v else lookup k m)
lookup-insert k j v [] = refl
lookup-insert k j v ((i, w) ∷ m) =
    ground (arith, str_eq_iff i j, str_eq_iff i k, str_eq_iff j k, lookup-insert k j v m)

choose-Chooses :
    (vm : List (String × ℤ)) (cs : List OlineProductAttrDto) (acc : List (String × ℤ)) (k : String)
    → Chooses vm cs acc k (choose vm cs acc)
unfolding choose
choose-Chooses vm [] acc k = refl
choose-Chooses vm (c ∷ cs) acc k = elim (Option-cases (lookup (map_key c) vm)) [
  | inl missing ↦ ground (arith)
  | inr (v, found) ↦ ground (
    arith,
    choose-Chooses vm cs (insert (map_key c) v acc) k,
    lookup-insert k (map_key c) v acc,
    str_eq_iff (map_key c) k,
  )
]

-- What is extracted for an order line: at each key that is chosen the charge of the product, and no
-- other charge.
abbrev pub Extracts :
    ProdAttrPricingMap
    → Option (List OlineProductAttrDto)
    → String
    → Result AppErrorCode ProdAttrPricingMap
    → Type 0
Extracts pricing chosen k (err e) = e ≡ invalid_input
Extracts pricing none k (ok m) = m ≡ none
Extracts pricing (some cs) k (ok none) = cs ≡ []
Extracts none (some cs) k (ok (some m)) = ⊥
Extracts (some vm) (some cs) k (ok (some m)) =
    lookup k m ≡ (if is_chosen k cs then lookup k vm else none)

extract_from-Extracts :
    (pricing : ProdAttrPricingMap) (chosen : Option (List OlineProductAttrDto)) (k : String)
    → Extracts pricing chosen k (extract_from pricing chosen)
extract_from-Extracts pricing none k = refl
extract_from-Extracts pricing (some []) k = refl
extract_from-Extracts none (some (c ∷ cs)) k = refl
extract_from-Extracts (some vm) (some (c ∷ cs)) k = elim (Option-cases (choose vm (c ∷ cs) [])) [
  | inl missing ↦ rw missing refl
  | inr (m, found) ↦ rw found (ground (arith, choose-Chooses vm (c ∷ cs) [] k))
]

-- The attributes that are extracted, with the time of their prices.
abbrev pub ExtractsFor :
    {T : Type 0}
    → ProductPriceModel T
    → OrderLineRsvReqDto
    → String
    → Result AppErrorCode (ProdAttriPriceModel T)
    → Type 0
ExtractsFor p d k (err e) = e ≡ invalid_input
ExtractsFor p d k (ok a) =
    (a.last_update ≡ p.attributes.last_update)
    × Extracts p.attributes.pricing d.applied_attr k (ok a.pricing)

-- The charges that are extracted for an order line are, at each key that is chosen, those of the
-- product, and no others; with no attribute chosen there is none. The only error is invalid input.
pub extract_attributes-ExtractsFor :
    {T : Type 0} (p : ProductPriceModel T) (d : OrderLineRsvReqDto) (k : String)
    → ExtractsFor p d k (extract_attributes p d)
unfolding extract_attributes
extract_attributes-ExtractsFor p d k =
    go (extract_from p.attributes.pricing d.applied_attr)
      (extract_from-Extracts p.attributes.pricing d.applied_attr k)
  where
    go :
        (r : Result AppErrorCode ProdAttrPricingMap)
        → Extracts p.attributes.pricing d.applied_attr k r
        → ExtractsFor p d k
            (r >>? λ m. ok (record { pricing = m; last_update = p.attributes.last_update }))
    go (err e) h = h
    go (ok m) h = (refl, h)

-- The price of an order line, by how its calculation ended.
abbrev pub Prices :
    {T : Type 0}
    → OrderLineRsvReqDto
    → ProductPriceModel T
    → Result AppErrorCode (OrderLinePriceModel × ProdAttriPriceModel T)
    → Type 0
Prices d p (err e) = (e ≡ data_corruption) ⊎ (extract_attributes p d ≡ err e)
Prices d p (ok (price, attrs)) =
    (extract_attributes p d ≡ ok attrs)
    × (p.price ≤ 2_147_483_647)
    × (pos price.unit ≡ pos p.price +ℤ charges attrs.pricing)
    × (price.total ≡ mul32 price.unit d.quantity)

IsTotal : ProdAttrPricingMap → Result AppErrorCode ℤ → Type 0
IsTotal m (err e) = e ≡ data_corruption
IsTotal m (ok z) = z ≡ charges m

+ℤ-zero-left : (a : ℤ) → pos 0 +ℤ a ≡ a
unfolding ◌+ℤ◌
+ℤ-zero-left a = ground arith

total_amount-IsTotal : (m : ProdAttrPricingMap) → IsTotal m (total_amount m)
unfolding IsTotal total_amount
total_amount-IsTotal none = refl
total_amount-IsTotal (some m) =
    ground (arith, try_sum-IsSum (pos 0) m, +ℤ-zero-left (sum_charges m))

module _ {T : Type 0} where
  -- A price that is calculated has as its unit the base price and the charges of the extracted
  -- attributes, with no overflow, and as its total the unit times the quantity on u32. An error is
  -- that of the extraction, or a corruption of the data.
  pub finalize_price-Prices :
      (d : OrderLineRsvReqDto) (p : ProductPriceModel T) → Prices d p (finalize_price d p)
  unfolding finalize_price IsTotal
  finalize_price-Prices d p = go (extract_attributes p d) refl
    where
      go :
          (r : Result AppErrorCode (ProdAttriPriceModel T))
          → extract_attributes p d ≡ r
          → Prices d p (finalize_price d p)
      go (err e) h = rw h (inr h)
      go (ok a) h = ground (arith, total_amount-IsTotal a.pricing)
