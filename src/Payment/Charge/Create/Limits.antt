-- ===== src/Payment/Charge/Create/Limits.antt =====
-- What a charge may contain: `ChargeBuyerModel::try_from` of services/payment/src/model/charge.rs.
use mathlib.Core.Path.{subst}
use e_commerce.Common.{
  ℕ, ◌+◌, ◌≤◌, ◌≡◌, refl, ◌⊎◌, inl, inr, true, false, none, some, List, is_empty, str_eq, arith,
  Bool-cases, Option-cases, find,
}
use e_commerce.Common.Chrono.{Chrono}
use e_commerce.Common.Outcome.{keep_ok, Result, ok, err, Result-cases}
use e_commerce.Common.Decimal.{Decimal}
use e_commerce.Payment.Amount.{PayLineAmountModel, IsAmountOf, try_from-IsAmountOf, default_amount}
use e_commerce.Payment.Amount as Amount
use e_commerce.Common.Currency.{CurrencyDto, amount_fraction_scale, currency_eq}
use e_commerce.Payment.OrderReplica.{
  OrderLineModel, OrderLineModelSet, OrderCurrencySnapshot, get, find_line, check_qty_avail,
  is_line_at,
}
use e_commerce.Payment.OrderReplica.Currencies.{Matches, Matches-map, keep_ok-Matches}
use e_commerce.Payment.OrderReplica.Replicates.{AmountResult-cases}
use e_commerce.Payment.Charge.Line.{ChargeLineBuyerModel}
use e_commerce.Payment.Charge.State.{new_meta}
use e_commerce.Payment.Charge.Create.{
  ChargeAmountOlineDto, ChargeReqOrderDto, ChargeRespErrorDto, ChargeBuyerModel,
  ChargeOlineErrorDto, line_try_from, line_in_time, charged_line, try_from,
}

module _ {T D : Type 0} ⦃c : Chrono T⦄ ⦃d : Decimal D⦄ where
  -- A charged line is what is asked for, and covered by a line of the order: enough pieces are
  -- unpaid, the reservation lasts long enough, and the unit price is the same.
  unfoldable pub IsCovered :
      List (OrderLineModel T D)
      → CurrencyDto
      → T
      → ChargeAmountOlineDto
      → ChargeLineBuyerModel D
      → Type 0
  IsCovered olines label now rl l =
      (l.pid ≡ record { store_id = rl.seller_id; product_id = rl.product_id })
      × (l.attr_set_seq ≡ rl.attr_set_seq)
      × IsAmountOf {D = D} rl.quantity rl.amount (amount_fraction_scale label)
          (Amount.ok l.amount_orig)
      × (l.amount_refunded ≡ default_amount)
      × (l.num_rejected ≡ 0)
      × ((v : OrderLineModel T D) × (find
              (is_line_at (rl.seller_id, rl.product_id, rl.attr_set_seq)) olines
            ≡ some v)
          × (v.paid_total.qty + rl.quantity ≤ v.rsv_total.qty)
          × (c.lt (c.sub_secs v.reserved_until 55) now ≡ false)
          × (d.eq l.amount_orig.unit v.rsv_total.unit ≡ true))

  check_qty_avail-le :
      (v : OrderLineModel T D) (n q : ℕ)
      → check_qty_avail v n ≡ ok q
      → v.paid_total.qty + n ≤ v.rsv_total.qty
  unfolding check_qty_avail
  check_qty_avail-le v n q h = ground arith

  line_in_time-IsCovered :
      (olines : List (OrderLineModel T D)) (label : CurrencyDto) (now : T)
      (rl : ChargeAmountOlineDto) (a : PayLineAmountModel D) (v : OrderLineModel T D)
      (l : ChargeLineBuyerModel D)
      → IsAmountOf {D = D} rl.quantity rl.amount (amount_fraction_scale label) (Amount.ok a)
      → find (is_line_at (rl.seller_id, rl.product_id, rl.attr_set_seq)) olines ≡ some v
      → v.paid_total.qty + rl.quantity ≤ v.rsv_total.qty
      → line_in_time rl now a v ≡ ok l
      → IsCovered olines label now rl l
  unfolding IsCovered
  line_in_time-IsCovered olines label now rl a v l is found room h =
      elim (Bool-cases (c.lt (c.sub_secs v.reserved_until 55) now)) [
        | inl late ↦ ground (arith, late)
        | inr in_time ↦ elim (Bool-cases (d.eq a.unit v.rsv_total.unit)) [
          | inr other ↦ ground (arith, in_time, other)
          | inl same ↦
              let made : charged_line rl a ≡ l = ground (arith, in_time, same) in
              subst (IsCovered olines label now rl) made
                (refl, refl, is, refl, refl, (v, found, room, in_time, same))
        ]
      ]

  line_try_from-IsCovered :
      (olines : List (OrderLineModel T D)) (label : CurrencyDto) (now : T)
      (rl : ChargeAmountOlineDto) (l : ChargeLineBuyerModel D)
      → line_try_from olines rl label now ≡ ok l
      → IsCovered olines label now rl l
  unfolding line_try_from find_line
  line_try_from-IsCovered olines label now rl l h =
      let limit = amount_fraction_scale label in
      elim (AmountResult-cases (Amount.try_from {D = D} rl.quantity rl.amount limit)) [
        | inr (x, bad) ↦ ground (arith, bad)
        | inl (a, good) ↦
            let is : IsAmountOf {D = D} rl.quantity rl.amount limit (Amount.ok a) =
              subst (IsAmountOf rl.quantity rl.amount limit) good
                (try_from-IsAmountOf D rl.quantity rl.amount limit) in
            elim (Option-cases
              (find (is_line_at (rl.seller_id, rl.product_id, rl.attr_set_seq)) olines)) [
                | inl none_found ↦ ground (arith, good, none_found)
                | inr (v, found) ↦ elim (Result-cases (check_qty_avail v rl.quantity)) [
                  | inr (x, few) ↦ ground (arith, good, found, few)
                  | inl (q, enough) ↦
                      line_in_time-IsCovered olines label now rl a v l is found
                        (check_qty_avail-le v rl.quantity q enough)
                        (ground (arith, good, found, enough))
                ]
              ]
      ]

  -- What becomes of a request: a charge of covered lines in the currency of the order, or a reason.
  unfoldable pub Charges :
      OrderLineModelSet T D
      → ChargeReqOrderDto
      → T
      → T
      → Result ChargeRespErrorDto (ChargeBuyerModel T D)
      → Type 0
  Charges ms req now later (ok m) =
      (str_eq ms.id req.id ≡ true)
      × (m.meta ≡ new_meta ms.id ms.buyer_id later)
      × (m.currency_snapshot ≡ ms.currency_snapshot)
      × ((s : OrderCurrencySnapshot D) × (get ms.buyer_id ms.currency_snapshot ≡ some s)
          × (currency_eq s.label req.currency ≡ true)
          × Matches (IsCovered ms.lines s.label now) req.lines m.lines)
  Charges ms req now later (err e) =
      (str_eq ms.id req.id ≡ false)
      ⊎ (get ms.buyer_id ms.currency_snapshot ≡ none)
      ⊎ ((s : OrderCurrencySnapshot D) × (get ms.buyer_id ms.currency_snapshot ≡ some s)
          × (e.currency ≡ some s.label)
          × ((currency_eq s.label req.currency ≡ false)
              ⊎ ((es : List ChargeOlineErrorDto) × (e.lines ≡ some es) × (is_empty es ≡ false))))

module _ (T D : Type 0) ⦃c : Chrono T⦄ ⦃d : Decimal D⦄ where
  -- If a charge is made, it is of the order that is named, in the currency of its buyer, and each
  -- of its lines is covered by a line of the order: it asks for no more pieces than are unpaid
  -- there, the reservation lasts for at least 55 seconds more, and the amount was read and checked,
  -- at a unit price that compares equal. If it is refused, the order is another one, the buyer has
  -- no currency, the currency is another one, or at least one line has an error.
  pub try_from-Charges :
      (ms : OrderLineModelSet T D) (req : ChargeReqOrderDto) (now later : T)
      → Charges ms req now later (try_from ms req now later)
  unfolding Charges try_from
  try_from-Charges ms req now later = elim (Bool-cases (str_eq ms.id req.id)) [
    | inr other ↦ rw other (inl other)
    | inl same ↦ elim (Option-cases (get ms.buyer_id ms.currency_snapshot)) [
      | inl no_buyer ↦ rw (same, no_buyer) (inr (inl no_buyer))
      | inr (s, buyer) ↦ elim (Bool-cases (currency_eq s.label req.currency)) [
        | inr differs ↦ rw (same, buyer, differs) (inr (inr (s, buyer, refl, inl differs)))
        | inl agrees ↦
            let f = λ (rl : ChargeAmountOlineDto). line_try_from ms.lines rl s.label now in
            let kept = keep_ok f req.lines in
            elim (Bool-cases (is_empty kept.1)) [
              | inr e ↦
                  rw (same, buyer, agrees, e) (inr (inr (s, buyer, refl, inr (kept.1, refl, e))))
              | inl e ↦
                  rw (same, buyer, agrees, e)
                    (
                      same,
                      refl,
                      refl,
                      (
                        s,
                        buyer,
                        agrees,
                        Matches-map _ _ (line_try_from-IsCovered ms.lines s.label now) req.lines
                            kept.0 (keep_ok-Matches f req.lines e),
                      ),
                    )
            ]
      ]
    ]
  ]
