-- ===== src/Payment/OrderReplica/Handover.antt =====
-- Whether the payment service takes the copy that the order service sends of an order:
-- `replica_paym_dto` of services/order/src/model/order.rs, received by `OrderLineModelSet::try_from`
-- of services/payment/src/model/order_replica.rs. Here: the lines.
pub mod Rates
pub mod Taken
use mathlib.Core.Path.{subst}
use e_commerce.Common.{
  ℕ, ◌<◌, ◌≤◌, ◌≡◌, refl, sym, ap, ◌∙◌, ◌⊎◌, inl, inr, Bool, true, false, ◌||◌, Option, none, some,
  List, [], ◌∷◌, ◌++◌, map, String, find, is_empty, All, ◌==◌, if◌then◌else◌, ltb, arith,
  Bool-cases, Option-cases, eqb_iff,
}
use e_commerce.Common.Chrono.{Chrono}
use e_commerce.Common.Currency.{CurrencyDto, currency_eq, amount_fraction_scale}
use e_commerce.Common.Decimal.{Decimal, IsDecimal}
use e_commerce.Common.Outcome.{
  Outcome, returned, Result, ok, err, Result-cases, keep_ok, ok_or, ◌>>?◌,
}
use e_commerce.Contact.Billing.{BillingModel}
use e_commerce.Order.Line.{OrderLineModel, store_id}
use e_commerce.Order.Price.Edit.{AppError}
use e_commerce.Order.Currency.{
  CurrencyModel, OrderCurrencyModel, RateMap, get_rate, to_buyer_rate, rate_dto, rate_dtos,
  seller_dto, seller_dtos, any_named, concat, snapshot_dto, rate_of_seller, divided,
}
use e_commerce.Order.Replica.{
  in_buyer_currency, line_dto, line_of, line_at_rate, replica_of, replica_paym_dto,
}
use e_commerce.Payment.Amount.{PayAmountDto, AmountResult, total_amount_eq}
use e_commerce.Payment.Amount as Amount
use e_commerce.Payment.OrderReplica.{
  CurrencySnapshotDto, OrderSellerCurrencyDto, OrderLinePayDto, OrderModelError,
  OrderCurrencySnapshot, seller_snapshot, snapshot_try_from, try_build_currency_snapshot, contains,
  uncovered, line_try_from, line_until, line_with_amount,
}
use e_commerce.Payment.OrderReplica as OrderReplica
use e_commerce.Payment.OrderReplica.Currencies.{try_build-Has, Matches, keep_ok-Matches}
use e_commerce.Payment.Charge.Request.{OrderReplicaPaymentDto}

module _ {D : Type 0} ⦃d : Decimal D⦄ where
  -- The total compares equal to the price of the pieces.
  abbrev pub AmountsAgree : ℕ → D → D → Type 0
  AmountsAgree q unit total =
      (p : D) × (d.checked_mul (d.of_u32 q) unit ≡ some p) × (d.eq p total ≡ true)

  abbrev Read : ℕ → D → D → ℕ → AmountResult (Amount.PayLineAmountModel D) → Type 0
  Read q unit total limit (Amount.ok a) = AmountsAgree q unit total
  Read q unit total limit (Amount.err e) = ¬ AmountsAgree q unit total

  -- An amount that was printed is taken if it agrees, and only then.
  amount-Read :
      (q : ℕ) (unit total : D) (limit : ℕ)
      → IsDecimal D
      → d.scale unit ≤ limit
      → Read q unit total limit
          (Amount.try_from q (record { unit = d.to_str unit; total = d.to_str total }) limit)
  unfolding Amount.try_from total_amount_eq
  amount-Read q unit total limit dec few =
      let places : ltb limit (d.scale unit) ≡ false = ground (arith, few) in
      rw (dec.of_str-to_str unit, dec.of_str-to_str total, places)
        (go (d.checked_mul (d.of_u32 q) unit) refl)
    where
      go :
          (o : Option D)
          → d.checked_mul (d.of_u32 q) unit ≡ o
          → let m : Amount.PayLineAmountModel D = record { unit = unit; total = total; qty = q } in
            Read q unit total limit (
              Amount.accept_total
                (record { unit = d.to_str unit; total = d.to_str total })
                m
                (Amount.compare_total m o))
      go none e = λ (p, e', eq). ground (arith, sym e ∙ e')
      go (some p) e = elim (Bool-cases (d.eq p total)) [
        | inl agrees ↦ rw agrees (p, e, agrees)
        | inr differs ↦ rw differs (λ (p', e', agrees).
            let same : some p ≡ some p' = sym e ∙ e' in ground (arith, same, differs, agrees))
      ]

module _ {D : Type 0} ⦃d : Decimal D⦄ where
  -- The rate of a seller is in the currency of the buyer.
  pub to_buyer_rate-name :
      (cm : OrderCurrencyModel D) (k : ℕ) (rate : CurrencyModel D)
      → to_buyer_rate cm k ≡ ok rate
      → (rate.name ≡ cm.buyer.name) × ((v : CurrencyModel D) × (get_rate k cm.sellers ≡ some v))
  unfolding to_buyer_rate
  to_buyer_rate-name cm k rate h = elim (Option-cases (get_rate k cm.sellers)) [
    | inl e ↦ ground (arith, rw e at h)
    | inr (v, e) ↦ elim (Option-cases (d.checked_div cm.buyer.rate v.rate)) [
      | inl e' ↦ ground (arith, rw (e, e') at h)
      | inr (r, e') ↦ (ground (arith, rw (e, e') at h), (v, e))
    ]
  ]

module _ {T : Type 0} ⦃c : Chrono T⦄ where
  -- The line reserves at least one piece, beyond the present time, which is read as it is printed.
  abbrev pub IsReserved : T → OrderLineModel T → Type 0
  IsReserved now l =
      (0 < l.qty.reserved)
      × (c.le l.policy.reserved_until now ≡ false)
      × (c.parse_rfc3339 (c.to_rfc3339 l.policy.reserved_until) ≡ some l.policy.reserved_until)

module _ {T D : Type 0} ⦃c : Chrono T⦄ ⦃d : Decimal D⦄ where
  -- The total of a line in the currency of the buyer compares equal to the price of its pieces,
  -- after both were cut to the places of the currency.
  abbrev pub Agrees : OrderCurrencyModel D → OrderLineModel T → Type 0
  Agrees cm l =
      (rate : CurrencyModel D) × (to_buyer_rate cm (store_id l.id_) ≡ ok rate)
      × AmountsAgree l.qty.reserved (in_buyer_currency rate l.price.unit)
          (in_buyer_currency rate l.price.total)

  abbrev Takes : Type 0 → Result OrderModelError (OrderReplica.OrderLineModel T D) → Type 0
  Takes P (ok v) = P
  Takes P (err e) = ¬ P

  line_with_amount-Takes :
      (x : OrderLinePayDto) (t : T) (q : ℕ) (unit total : D) (limit : ℕ)
      (r : AmountResult (Amount.PayLineAmountModel D))
      → Read q unit total limit r
      → Takes (AmountsAgree q unit total) (line_with_amount x t r)
  line_with_amount-Takes x t q unit total limit (Amount.ok a) h = h
  line_with_amount-Takes x t q unit total limit (Amount.err e) h = h

  line_dto-Takes :
      (l : OrderLineModel T) (rate : CurrencyModel D) (now : T)
      → IsDecimal D
      → IsReserved now l
      → Takes
          (AmountsAgree l.qty.reserved
            (in_buyer_currency rate l.price.unit)
            (in_buyer_currency rate l.price.total))
          (line_try_from (line_dto l rate) rate.name now)
  unfolding line_try_from line_dto
  line_dto-Takes l rate now dec (some_piece, later, time) =
      let q = l.qty.reserved in
      let unit = in_buyer_currency rate l.price.unit in
      let total = in_buyer_currency rate l.price.total in
      let limit = amount_fraction_scale rate.name in
      let positive : (q == 0) ≡ false = ground (arith, some_piece) in
      rw (positive, time, later)
        (line_with_amount-Takes (line_dto l rate) l.policy.reserved_until q unit total limit
          (Amount.try_from q (record { unit = d.to_str unit; total = d.to_str total }) limit)
          (amount-Read q unit total limit dec (dec.scale-trunc _ limit)))

  pub line_of-cases :
      (cm : OrderCurrencyModel D) (l : OrderLineModel T) (x : OrderLinePayDto)
      → line_of cm l ≡ ok x
      → (rate : CurrencyModel D) × (to_buyer_rate cm (store_id l.id_) ≡ ok rate)
        × (line_dto l rate ≡ x)
  line_of-cases cm l x h = elim (Result-cases (to_buyer_rate cm (store_id l.id_))) [
    | inl (rate, e) ↦ (rate, e, ground (arith, rw e at h))
    | inr (y, e) ↦ ground (arith, rw e at h)
  ]

  line_of-Takes :
      (cm : OrderCurrencyModel D) (l : OrderLineModel T) (x : OrderLinePayDto) (now : T)
      → IsDecimal D
      → IsReserved now l
      → line_of cm l ≡ ok x
      → Takes (Agrees cm l) (line_try_from x cm.buyer.name now)
  line_of-Takes cm l x now dec reserved h =
      let (rate, e, same) = line_of-cases cm l x h in
      let (name, found) = to_buyer_rate-name cm (store_id l.id_) rate e in
      subst (λ y. Takes (Agrees cm l) (line_try_from y cm.buyer.name now)) same
        (subst (λ n. Takes (Agrees cm l) (line_try_from (line_dto l rate) n now)) name
          (named rate e (line_try_from (line_dto l rate) rate.name now)
            (line_dto-Takes l rate now dec reserved)))
    where
      named :
          (rate : CurrencyModel D)
          → to_buyer_rate cm (store_id l.id_) ≡ ok rate
          → (r : Result OrderModelError (OrderReplica.OrderLineModel T D))
          → Takes
              (AmountsAgree l.qty.reserved
                (in_buyer_currency rate l.price.unit)
                (in_buyer_currency rate l.price.total))
              r
          → Takes (Agrees cm l) r
      named rate e (ok v) agrees = (rate, e, agrees)
      named rate e (err x) bad = λ (rate', e', agrees).
          let same : rate' ≡ rate = ground (arith, sym e' ∙ e) in
          bad (
            subst
              (λ (z : CurrencyModel D).
                AmountsAgree l.qty.reserved (in_buyer_currency z l.price.unit)
                  (in_buyer_currency z l.price.total))
              same agrees)

  -- The lines are all taken if all agree, and only then.
  pub lines-Takes :
      (cm : OrderCurrencyModel D) (ls : List (OrderLineModel T)) (xs : List OrderLinePayDto)
      (now : T)
      → IsDecimal D
      → All (IsReserved now) ls
      → Matches (λ l x. line_of cm l ≡ ok x) ls xs
      → let bad =
          (keep_ok {B = OrderReplica.OrderLineModel T D}
            (λ x. line_try_from x cm.buyer.name now)
            xs).1 in
        ((is_empty bad ≡ true) × All (Agrees cm) ls)
        ⊎ ((is_empty bad ≡ false) × ¬ All (Agrees cm) ls)
  lines-Takes cm [] [] now dec h m = inl (refl, tt)
  lines-Takes cm [] (x ∷ xs) now dec h m = absurd m
  lines-Takes cm (l ∷ ls) [] now dec h m = absurd m
  lines-Takes cm (l ∷ ls) (x ∷ xs) now dec (h, hs) (m, ms) =
      go (line_try_from x cm.buyer.name now) refl (line_of-Takes cm l x now dec h m)
        (lines-Takes cm ls xs now dec hs ms)
    where
      go :
          (r : Result OrderModelError (OrderReplica.OrderLineModel T D))
          → line_try_from x cm.buyer.name now ≡ r
          → Takes (Agrees cm l) r
          → (let bad =
                (keep_ok {B = OrderReplica.OrderLineModel T D}
                  (λ x. line_try_from x cm.buyer.name now)
                  xs).1 in
              ((is_empty bad ≡ true) × All (Agrees cm) ls)
              ⊎ ((is_empty bad ≡ false) × ¬ All (Agrees cm) ls))
          → let bad =
              (keep_ok {B = OrderReplica.OrderLineModel T D}
                (λ x. line_try_from x cm.buyer.name now)
                (x ∷ xs)).1 in
            ((is_empty bad ≡ true) × All (Agrees cm) (l ∷ ls))
            ⊎ ((is_empty bad ≡ false) × ¬ All (Agrees cm) (l ∷ ls))
      go (ok v) e agrees (inl (none_bad, all)) = inl (rw (e, keep_ok) none_bad, (agrees, all))
      go (ok v) e agrees (inr (some_bad, not_all)) =
          inr (rw (e, keep_ok) some_bad, λ (p, ps). not_all ps)
      go (err y) e bad rest = inr (rw (e, keep_ok) refl, λ (p, ps). bad p)
