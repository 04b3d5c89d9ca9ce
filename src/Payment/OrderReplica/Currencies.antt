-- ===== src/Payment/OrderReplica/Currencies.antt =====
-- Whose currencies an order has: `OrderLineModelSet::try_build_currency_snapshot` of
-- services/payment/src/model/order_replica.rs.
use e_commerce.Common.{
  ℕ, ◌≡◌, inl, inr, refl, true, false, some, List, [], ◌∷◌, map, ◌==◌, is_empty, arith, Bool-cases,
  Option-cases, find, sym,
}
use mathlib.Core.Path.{subst}
use e_commerce.Common.Outcome.{keep_ok, Result, ok, err, Result-cases}
use e_commerce.Common.Decimal.{Decimal}
use e_commerce.Common.Currency.{CurrencyDto, currency_eq}
use e_commerce.Payment.OrderReplica.{
  CurrencySnapshotDto, OrderSellerCurrencyDto, OrderCurrencySnapshotDto, OrderModelError,
  OrderCurrencySnapshot, CurrencyMap, get, insert, insert_all, seller_snapshot, snapshot_try_from,
  try_build_currency_snapshot, contains,
}

module _ {D : Type 0} where
  pub get-insert_same :
      (k : ℕ) (v : OrderCurrencySnapshot D) (m : CurrencyMap D) → get k (insert k v m) ≡ some v
  get-insert_same k v [] = ground arith
  get-insert_same k v ((k', v') ∷ m) = ground (arith, get-insert_same k v m)

  pub get-insert_other :
      (j k : ℕ) (v : OrderCurrencySnapshot D) (m : CurrencyMap D)
      → (j == k) ≡ false
      → get j (insert k v m) ≡ get j m
  get-insert_other j k v [] e = ground arith
  get-insert_other j k v ((k', v') ∷ m) e = ground (arith, get-insert_other j k v m e)

  -- Keys stay.
  abbrev pub Has : ℕ → CurrencyMap D → Type 0
  Has k m = (s : OrderCurrencySnapshot D) × (get k m ≡ some s)

  pub insert-Has :
      (j k : ℕ) (v : OrderCurrencySnapshot D) (m : CurrencyMap D) → Has j m → Has j (insert k v m)
  insert-Has j k v m (s, h) = elim (Bool-cases (j == k)) [
    | inl e ↦ (v, ground (arith, get-insert_same k v m))
    | inr e ↦ (s, ground (arith, get-insert_other j k v m e))
  ]

  pub insert_all-Has : (j : ℕ) (m es : CurrencyMap D) → Has j m → Has j (insert_all m es)
  insert_all-Has j m [] h = h
  insert_all-Has j m ((k, v) ∷ es) h = insert_all-Has j (insert k v m) es (insert-Has j k v m h)

  pub insert_all-Has_key :
      (j : ℕ) (m es : CurrencyMap D)
      → contains j (map (λ e. e.0) es) ≡ true
      → Has j (insert_all m es)
  insert_all-Has_key j m [] h = ground arith
  insert_all-Has_key j m ((k, v) ∷ es) h = elim (Bool-cases (j == k)) [
    | inl e ↦ insert_all-Has j (insert k v m) es (v, ground (arith, get-insert_same k v m))
    | inr e ↦ insert_all-Has_key j (insert k v m) es (ground arith)
  ]

module _ {A B : Type 0} where
  -- Two lists whose elements correspond.
  abbrev pub Matches : (A → B → Type 0) → List A → List B → Type 0
  Matches R [] [] = Unit
  Matches R [] (y ∷ ys) = ⊥
  Matches R (x ∷ xs) [] = ⊥
  Matches R (x ∷ xs) (y ∷ ys) = R x y × Matches R xs ys

  pub Matches-map :
      (R S : A → B → Type 0)
      → ((x : A) (y : B) → R x y → S x y)
      → (xs : List A) (ys : List B) → Matches R xs ys
      → Matches S xs ys
  Matches-map R S f [] [] m = tt
  Matches-map R S f [] (y ∷ ys) m = absurd m
  Matches-map R S f (x ∷ xs) [] m = absurd m
  Matches-map R S f (x ∷ xs) (y ∷ ys) (h, m) = (f x y h, Matches-map R S f xs ys m)

module _ {A E B : Type 0} (f : A → Result E B) where
  pub keep_ok-ok :
      (x : A) (y : B) (xs : List A)
      → f x ≡ ok y
      → keep_ok f (x ∷ xs) ≡ (y ∷ (keep_ok f xs).0, (keep_ok f xs).1)
  keep_ok-ok x y xs e = rw (e, keep_ok)

  pub keep_ok-err :
      (x : A) (y : E) (xs : List A)
      → f x ≡ err y
      → keep_ok f (x ∷ xs) ≡ ((keep_ok f xs).0, y ∷ (keep_ok f xs).1)
  keep_ok-err x y xs e = rw (e, keep_ok)

  pub keep_ok-Matches :
      (xs : List A)
      → is_empty (keep_ok f xs).1 ≡ true
      → Matches (λ x y. f x ≡ ok y) xs (keep_ok f xs).0
  keep_ok-Matches [] h = tt
  keep_ok-Matches (x ∷ xs) h = elim (Result-cases (f x)) [
    | inl (y, e) ↦
        let step = keep_ok-ok x y xs e in
        subst (λ k. Matches (λ x y. f x ≡ ok y) (x ∷ xs) k.0) (sym step)
          (e, keep_ok-Matches xs (subst (λ k. is_empty k.1 ≡ true) step h))
    | inr (y, e) ↦ ground (arith, keep_ok-err x y xs e)
  ]

module _ {D : Type 0} ⦃d : Decimal D⦄ where
  seller-key :
      (src : List CurrencySnapshotDto) (x : OrderSellerCurrencyDto)
      (y : ℕ × OrderCurrencySnapshot D)
      → seller_snapshot src x ≡ ok y
      → y.0 ≡ x.seller_id
  seller-key src x y h = elim (Result-cases (snapshot_try_from {D = D} x.currency src)) [
    | inl (m, e) ↦ ground (arith, e)
    | inr (m, e) ↦ ground (arith, e)
  ]

  entries-keys :
      (src : List CurrencySnapshotDto) (xs : List OrderSellerCurrencyDto) (es : CurrencyMap D)
      (k : ℕ)
      → Matches (λ x y. seller_snapshot src x ≡ ok y) xs es
      → contains k (map (λ x. x.seller_id) xs) ≡ contains k (map (λ e. e.0) es)
  entries-keys src [] [] k m = refl
  entries-keys src [] (y ∷ ys) k m = absurd m
  entries-keys src (x ∷ xs) [] k m = absurd m
  entries-keys src (x ∷ xs) (y ∷ ys) k (h, m) =
      rw (seller-key src x y h, entries-keys src xs ys k m)

  snapshot-label :
      (label : CurrencyDto) (src : List CurrencySnapshotDto) (s : OrderCurrencySnapshot D)
      → snapshot_try_from label src ≡ ok s
      → s.label ≡ label
  unfolding snapshot_try_from
  snapshot-label label src s h = elim (Option-cases (find (λ x. currency_eq x.name label) src)) [
    | inl e ↦ ground (arith, e)
    | inr (x, e) ↦ elim (Option-cases (d.of_str x.rate)) [
      | inl e' ↦ ground (arith, e, e')
      | inr (r, e') ↦ ground (arith, e, e')
    ]
  ]

  -- The buyer has the currency of the order, and every seller that is named has one.
  pub try_build-Has :
      (buyer_id : ℕ) (cd : OrderCurrencySnapshotDto) (m : CurrencyMap D)
      → try_build_currency_snapshot buyer_id cd ≡ ok m
      → ((s : OrderCurrencySnapshot D) × (get buyer_id m ≡ some s) × (s.label ≡ cd.buyer))
        × ((k : ℕ) → contains k (map (λ s. s.seller_id) cd.sellers) ≡ true → Has k m)
  unfolding try_build_currency_snapshot
  try_build-Has buyer_id cd m h =
      let kept = keep_ok (seller_snapshot cd.snapshot) cd.sellers in
      elim (Bool-cases (is_empty kept.1)) [
        | inr e ↦ ground (arith, e)
        | inl e ↦ elim (Result-cases (snapshot_try_from {D = D} cd.buyer cd.snapshot)) [
          | inr (x, ex) ↦ ground (arith, e, ex)
          | inl (s, es) ↦
              let built : insert buyer_id s (insert_all [] kept.0) ≡ m = ground (arith, e, es) in
              rw (sym built) (
                (s, get-insert_same buyer_id s (insert_all [] kept.0), snapshot-label _ _ s es),
                λ k named. insert-Has k buyer_id s (insert_all [] kept.0) (
                    insert_all-Has_key k [] kept.0 (
                      rw
                        (sym (
                          entries-keys cd.snapshot cd.sellers kept.0 k
                            (keep_ok-Matches (seller_snapshot cd.snapshot) cd.sellers e)))
                        named)),
              )
        ]
      ]

  -- A failure has a reason.
  pub try_build-err :
      (buyer_id : ℕ) (cd : OrderCurrencySnapshotDto) (es : List OrderModelError)
      → try_build_currency_snapshot {D = D} buyer_id cd ≡ err es
      → is_empty es ≡ false
  unfolding try_build_currency_snapshot
  try_build-err buyer_id cd es h =
      let kept = keep_ok (seller_snapshot {D = D} cd.snapshot) cd.sellers in
      elim (Bool-cases (is_empty kept.1)) [
        | inr e ↦ ground (arith, e)
        | inl e ↦ elim (Result-cases (snapshot_try_from {D = D} cd.buyer cd.snapshot)) [
          | inr (x, ex) ↦ ground (arith, e, ex)
          | inl (s, es') ↦ ground (arith, e, es')
        ]
      ]
