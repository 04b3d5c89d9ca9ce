-- ===== src/Payment/OrderReplica/Replicates.antt =====
-- What an accepted order is: `OrderLineModelSet::try_from` of
-- services/payment/src/model/order_replica.rs.
use mathlib.Core.Path.{subst}
use e_commerce.Common.{
  ℕ, ◌≡◌, ◌≢◌, refl, true, false, some, List, [], ◌∷◌, ◌++◌, map, String, if◌then◌else◌, is_empty,
  All, arith, Bool-cases, Option-cases, inl, inr, ◌⊎◌,
}
use e_commerce.Common.Chrono.{Chrono}
use e_commerce.Common.Outcome.{keep_ok, Outcome, returned, panicked, Result, ok, err, Result-cases}
use e_commerce.Common.Decimal.{Decimal}
use e_commerce.Payment.Amount.{
  PayLineAmountModel, PayLineAmountError, IsAmountOf, try_from-IsAmountOf, default_amount,
  AmountResult,
}
use e_commerce.Payment.Amount as Amount
use e_commerce.Common.Currency.{CurrencyDto, amount_fraction_scale}
use e_commerce.Payment.OrderReplica.{
  OrderCurrencySnapshotDto, OrderLinePayDto, OrderModelError, OrderLineModel, OrderLineModelSet,
  CurrencyMap, OrderCurrencySnapshot, get, pid_of, line_try_from, try_build_currency_snapshot,
  contains, uncovered, verify_seller_currency_integrity, errors_of, with_currencies, try_from,
  empty_line, missing_actors_currency,
}
use e_commerce.Payment.OrderReplica.Currencies.{
  Matches, Matches-map, keep_ok-Matches, Has, try_build-Has, try_build-err,
}

contains-uncovered :
    (k : ℕ) (xs provided : List ℕ)
    → is_empty (uncovered xs provided) ≡ true
    → contains k xs ≡ true
    → contains k provided ≡ true
contains-uncovered k [] provided h named = ground arith
contains-uncovered k (x ∷ xs) provided h named = ground (arith, contains-uncovered k xs provided)

pub AmountResult-cases :
    {A : Type 0} (r : AmountResult A)
    → ((a : A) × (r ≡ Amount.ok a)) ⊎ ((e : PayLineAmountError) × (r ≡ Amount.err e))
AmountResult-cases (Amount.ok a) = inl (a, refl)
AmountResult-cases (Amount.err e) = inr (e, refl)

module _ {T D : Type 0} ⦃c : Chrono T⦄ ⦃d : Decimal D⦄ where
  -- A line of the order as it was sent: for some number of pieces, reserved beyond now, with an
  -- amount that was read and checked, and nothing paid.
  pub IsLineOf : CurrencyDto → T → OrderLinePayDto → OrderLineModel T D → Type 0
  IsLineOf label now dto m =
      (m.pid ≡ pid_of dto)
      × (m.attr_set_seq ≡ dto.attr_set_seq)
      × (dto.quantity ≢ 0)
      × (c.parse_rfc3339 dto.reserved_until ≡ some m.reserved_until)
      × (c.le m.reserved_until now ≡ false)
      × IsAmountOf {D = D} dto.quantity dto.amount (amount_fraction_scale label)
          (Amount.ok m.rsv_total)
      × (m.paid_total ≡ default_amount)

  line_try_from-IsLineOf :
      (label : CurrencyDto) (now : T) (dto : OrderLinePayDto) (m : OrderLineModel T D)
      → line_try_from dto label now ≡ ok m
      → IsLineOf label now dto m
  unfolding IsLineOf line_try_from
  line_try_from-IsLineOf label now dto m h =
      elim (Option-cases (c.parse_rfc3339 dto.reserved_until)) [
        | inl e ↦ ground (arith, e)
        | inr (t, e) ↦ elim (Bool-cases (c.le t now)) [
          | inl old ↦ ground (arith, e, old)
          | inr new ↦
              elim (AmountResult-cases
                (Amount.try_from {D = D} dto.quantity dto.amount (amount_fraction_scale label))) [
                  | inr (x, bad) ↦ ground (arith, e, new, bad)
                  | inl (a, good) ↦
                      let is : IsAmountOf {D = D} dto.quantity dto.amount
                          (amount_fraction_scale label) (Amount.ok a) =
                        subst (IsAmountOf dto.quantity dto.amount (amount_fraction_scale label))
                          good
                          (try_from-IsAmountOf D dto.quantity dto.amount
                            (amount_fraction_scale label)) in
                      ground (arith, e, new, good, is)
                ]
        ]
      ]

  -- What the payment service keeps of an order, or why it does not.
  unfoldable pub Replicates :
      String
      → ℕ
      → List OrderLinePayDto
      → OrderCurrencySnapshotDto
      → T
      → Outcome (Result (List OrderModelError) (OrderLineModelSet T D))
      → Type 0
  Replicates oid buyer_id dtos cd now panicked = ⊥
  Replicates oid buyer_id dtos cd now (returned (err es)) = is_empty es ≡ false
  Replicates oid buyer_id dtos cd now (returned (ok m)) =
      (m.id ≡ oid)
      × (m.buyer_id ≡ buyer_id)
      × (is_empty dtos ≡ false)
      × Matches (IsLineOf cd.buyer now) dtos m.lines
      × ((s : OrderCurrencySnapshot D) × (get buyer_id m.currency_snapshot ≡ some s)
          × (s.label ≡ cd.buyer))
      × All (λ l. Has l.seller_id m.currency_snapshot) dtos

module _ {D : Type 0} where
  sellers-Has :
      (dtos : List OrderLinePayDto) (m : CurrencyMap D)
      → ((k : ℕ) → contains k (map (λ l. l.seller_id) dtos) ≡ true → Has k m)
      → All (λ l. Has l.seller_id m) dtos
  sellers-Has [] m h = tt
  sellers-Has (x ∷ xs) m h =
      (h x.seller_id (ground arith), sellers-Has xs m (λ k named. h k (ground (arith, named))))

pub is_empty-append :
    {A : Type 0} (xs ys : List A)
    → is_empty (xs ++ ys) ≡ true
    → (is_empty xs ≡ true) × (is_empty ys ≡ true)
is_empty-append [] ys h = (refl, h)
is_empty-append (x ∷ xs) ys h = ground arith

module _ (T D : Type 0) ⦃c : Chrono T⦄ ⦃d : Decimal D⦄ where
  lines-Matches :
      (label : CurrencyDto) (now : T) (dtos : List OrderLinePayDto)
      → is_empty (keep_ok {B = OrderLineModel T D} (λ dto. line_try_from dto label now) dtos).1
        ≡ true
      → Matches
          (IsLineOf {D = D} label now)
          dtos
          (keep_ok (λ dto. line_try_from dto label now) dtos).0
  lines-Matches label now dtos h =
      Matches-map _ _ (line_try_from-IsLineOf label now) dtos _ (keep_ok-Matches _ dtos h)

  with_currencies-Replicates :
      (oid : String) (buyer_id : ℕ) (dtos : List OrderLinePayDto) (cd : OrderCurrencySnapshotDto)
      (now : T)
      → is_empty dtos ≡ false
      → is_empty (uncovered (map (λ v. v.seller_id) dtos) (map (λ v. v.seller_id) cd.sellers))
        ≡ true
      → (m : CurrencyMap D) → try_build_currency_snapshot buyer_id cd ≡ ok m
      → Replicates oid buyer_id dtos cd now (with_currencies oid buyer_id dtos now (ok m))
  unfolding Replicates
  with_currencies-Replicates oid buyer_id dtos cd now some_line covered m built =
      let ((s, got, label), sellers) = try_build-Has buyer_id cd m built in
      let kept = keep_ok {B = OrderLineModel T D} (λ dto. line_try_from dto s.label now) dtos in
      elim (Bool-cases (is_empty kept.1)) [
        | inr e ↦ rw (got, e, with_currencies) e
        | inl e ↦
            rw (got, e, with_currencies)
              (
                refl,
                refl,
                some_line,
                subst (λ l. Matches (IsLineOf l now) dtos kept.0) label
                    (lines-Matches s.label now dtos e),
                (s, got, label),
                sellers-Has dtos m (λ k named. sellers k (contains-uncovered k _ _ covered named)),
              )
      ]

  -- Copying an order never panics. If it is accepted, it has a line for each one sent, in their
  -- order, of a positive number of pieces, reserved beyond the present time, with an amount that
  -- was read and checked, and nothing paid; there is at least one line, the buyer has the currency
  -- that was named, and the seller of each line has a currency. A refusal names at least one error.
  pub try_from-Replicates :
      (oid : String) (buyer_id : ℕ) (dtos : List OrderLinePayDto) (cd : OrderCurrencySnapshotDto)
      (now : T)
      → Replicates oid buyer_id dtos cd now (try_from {T = T} {D = D} oid buyer_id dtos cd now)
  unfolding Replicates try_from verify_seller_currency_integrity
  try_from-Replicates oid buyer_id dtos cd now =
      let first = if is_empty dtos then empty_line ∷ [] else [] in
      let ids = uncovered (map (λ v. v.seller_id) dtos) (map (λ v. v.seller_id) cd.sellers) in
      let second = if is_empty ids then [] else missing_actors_currency ids ∷ [] in
      let result = try_build_currency_snapshot {D = D} buyer_id cd in
      elim (Bool-cases (is_empty (first ++ second ++ errors_of result))) [
        | inr e ↦ rw e e
        | inl e ↦
            let (e12, e3) = is_empty-append (first ++ second) (errors_of result) e in
            let (e1, e2) = is_empty-append first second e12 in
            elim (Result-cases result) [
              | inr (es, bad) ↦ ground (arith, bad, e3, try_build-err buyer_id cd es bad)
              | inl (m, good) ↦
                  rw (e, good)
                    (with_currencies-Replicates oid buyer_id dtos cd now (ground arith)
                      (ground arith) m good)
            ]
      ]
