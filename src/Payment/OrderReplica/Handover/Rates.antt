-- ===== src/Payment/OrderReplica/Handover/Rates.antt =====
-- The rates that the order service sends are found by the payment service.
use e_commerce.Common.{
  ℕ, ◌≡◌, refl, ap, true, some, List, [], ◌∷◌, map, find, is_empty, All, arith, Bool-cases, inl,
  inr,
}
use e_commerce.Common.Currency.{CurrencyDto, currency_eq}
use e_commerce.Common.Decimal.{Decimal, IsDecimal}
use e_commerce.Common.Outcome.{ok, keep_ok}
use e_commerce.Order.Currency.{
  CurrencyModel, OrderCurrencyModel, RateMap, get_rate, rate_dto, rate_dtos, seller_dtos, any_named,
  concat, snapshot_dto,
}
use e_commerce.Payment.OrderReplica.{
  CurrencySnapshotDto, OrderCurrencySnapshot, CurrencyMap, seller_snapshot, snapshot_try_from,
  try_build_currency_snapshot, contains, uncovered, insert, insert_all,
}

currency_eq_refl : (a : CurrencyDto) → currency_eq a a ≡ true
unfolding currency_eq
currency_eq_refl a = ground arith

-- The difference of two sets of numbers is empty if the second has all of the first.
pub uncovered-nil :
    (xs provided : List ℕ)
    → All (λ x. contains x provided ≡ true) xs
    → is_empty (uncovered xs provided) ≡ true
uncovered-nil [] provided h = refl
uncovered-nil (x ∷ xs) provided (h, hs) = rw h (uncovered-nil xs provided hs)

-- A currency has a rate in a list, as it is printed.
Named : (D : Type 0) ⦃d : Decimal D⦄ → CurrencyDto → List CurrencySnapshotDto → Type 0
Named D ⦃d⦄ label src =
    (s : CurrencySnapshotDto) × (r : D) × (find (λ x. currency_eq x.name label) src ≡ some s)
    × (s.rate ≡ d.to_str r)

concat-nil : (xs : List CurrencySnapshotDto) → concat xs [] ≡ xs
concat-nil [] = refl
concat-nil (x ∷ xs) = ap (λ (ys : List CurrencySnapshotDto). x ∷ ys) (concat-nil xs)

module _ {D : Type 0} ⦃d : Decimal D⦄ where
  after-Named :
      (label : CurrencyDto) (m : RateMap D) (rest : List CurrencySnapshotDto)
      → Named D label rest
      → Named D label (concat (rate_dtos m) rest)
  unfolding Named
  after-Named label [] rest h = h
  after-Named label ((k, v) ∷ m) rest h = elim (Bool-cases (currency_eq v.name label)) [
    | inl e ↦ (rate_dto v, v.rate, rw e refl, refl)
    | inr e ↦ let (s, r, found, same) = after-Named label m rest h in (s, r, rw e found, same)
  ]

  any_named-Named :
      (label : CurrencyDto) (m : RateMap D) (rest : List CurrencySnapshotDto)
      → any_named label m ≡ true
      → Named D label (concat (rate_dtos m) rest)
  unfolding Named
  any_named-Named label [] rest h = ground (arith, h)
  any_named-Named label ((k, v) ∷ m) rest h = elim (Bool-cases (currency_eq v.name label)) [
    | inl e ↦ (rate_dto v, v.rate, rw e refl, refl)
    | inr e ↦
        let (s, r, found, same) = any_named-Named label m rest (rw e at h) in
        (s, r, rw e found, same)
  ]

  snapshot-Named :
      (cm : OrderCurrencyModel D)
      → Named D cm.buyer.name (snapshot_dto cm).snapshot
        × ((label : CurrencyDto)
            → any_named label cm.sellers ≡ true
            → Named D label (snapshot_dto cm).snapshot)
  unfolding snapshot_dto Named
  snapshot-Named cm = elim (Bool-cases (any_named cm.buyer.name cm.sellers)) [
    | inl e ↦ rw e (
      rw (concat-nil (rate_dtos cm.sellers)) at (any_named-Named cm.buyer.name cm.sellers [] e),
      λ label h. rw (concat-nil (rate_dtos cm.sellers)) at (any_named-Named label cm.sellers [] h),
    )
    | inr e ↦ rw e (
      after-Named cm.buyer.name cm.sellers (rate_dto cm.buyer ∷ []) (buyer-Named cm.buyer),
      λ label h. any_named-Named label cm.sellers (rate_dto cm.buyer ∷ []) h,
    )
  ]
    where
      buyer-Named : (b : CurrencyModel D) → Named D b.name (rate_dto b ∷ [])
      buyer-Named b = (rate_dto b, b.rate, rw (currency_eq_refl b.name) refl, refl)

  self-named : (m : RateMap D) → All (λ e. any_named e.1.name m ≡ true) m
  self-named [] = tt
  self-named ((k, v) ∷ m) = (rw (currency_eq_refl v.name) refl, weaker m (self-named m))
    where
      weaker :
          (es : RateMap D)
          → All (λ e. any_named e.1.name m ≡ true) es
          → All (λ e. any_named e.1.name ((k, v) ∷ m) ≡ true) es
      weaker [] h = tt
      weaker (e ∷ es) (h, hs) = (ground (arith, h), weaker es hs)

  snapshot_try_from-Named :
      (label : CurrencyDto) (src : List CurrencySnapshotDto)
      → IsDecimal D
      → Named D label src
      → (s : OrderCurrencySnapshot D) × (snapshot_try_from label src ≡ ok s)
  unfolding snapshot_try_from Named
  snapshot_try_from-Named label src dec (s, r, found, same) =
      (record { label = label; rate = r }, rw (found, same, dec.of_str-to_str r) refl)

  sellers-found :
      (src : List CurrencySnapshotDto) (m : RateMap D)
      → IsDecimal D
      → All (λ e. Named D e.1.name src) m
      → is_empty (keep_ok {B = ℕ × OrderCurrencySnapshot D} (seller_snapshot src) (seller_dtos m)).1
        ≡ true
  sellers-found src [] dec h = refl
  sellers-found src ((k, v) ∷ m) dec (h, hs) =
      let (s, e) = snapshot_try_from-Named v.name src dec h in
      rw (e, keep_ok) (sellers-found src m dec hs)

  built-from :
      (src : List CurrencySnapshotDto) (buyer_id : ℕ) (label : CurrencyDto) (m : RateMap D)
      → IsDecimal D
      → Named D label src
      → All (λ e. Named D e.1.name src) m
      → (r : CurrencyMap D) × (try_build_currency_snapshot buyer_id
            (record { snapshot = src; sellers = seller_dtos m; buyer = label })
          ≡ ok r)
  unfolding try_build_currency_snapshot
  built-from src buyer_id label m dec buyer all =
      let (s, e) = snapshot_try_from-Named label src dec buyer in
      (
        insert buyer_id s (insert_all [] (keep_ok (seller_snapshot src) (seller_dtos m)).0),
        rw (sellers-found src m dec all, e) refl,
      )

  All-Named :
      (src : List CurrencySnapshotDto) (full m : RateMap D)
      → ((label : CurrencyDto) → any_named label full ≡ true → Named D label src)
      → All (λ e. any_named e.1.name full ≡ true) m
      → All (λ e. Named D e.1.name src) m
  All-Named src full [] f h = tt
  All-Named src full ((k, v) ∷ m) f (h, hs) = (f v.name h, All-Named src full m f hs)

  -- The currencies of the copy can be built.
  pub snapshot_dto-built :
      (buyer_id : ℕ) (cm : OrderCurrencyModel D)
      → IsDecimal D
      → (m : CurrencyMap D) × (try_build_currency_snapshot buyer_id (snapshot_dto cm) ≡ ok m)
  unfolding snapshot_dto
  snapshot_dto-built buyer_id cm dec =
      let (buyer, any) = snapshot-Named cm in
      built-from (snapshot_dto cm).snapshot buyer_id cm.buyer.name cm.sellers dec buyer
        (All-Named (snapshot_dto cm).snapshot cm.sellers cm.sellers any (self-named cm.sellers))

  pub get_rate-contains :
      (k : ℕ) (v : CurrencyModel D) (m : RateMap D)
      → get_rate k m ≡ some v
      → contains k (map (λ s. s.seller_id) (seller_dtos m)) ≡ true
  get_rate-contains k v [] h = ground (arith, h)
  get_rate-contains k v ((j, w) ∷ m) h = ground (arith, h, get_rate-contains k v m)
