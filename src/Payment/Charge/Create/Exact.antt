-- ===== src/Payment/Charge/Create/Exact.antt =====
-- Which charge is made of a request: `ChargeLineBuyerModel::try_from` and
-- `ChargeBuyerModel::try_from` of services/payment/src/model/charge.rs, the other way around from
-- Limits.
use mathlib.Core.Path.{subst}
use e_commerce.Common.{
  ℕ, ◌+◌, ◌-◌, ◌≤◌, ◌≡◌, refl, sym, ◌↔◌, List, [], ◌∷◌, arith, Option-cases, inl, inr,
}
use e_commerce.Common.Chrono.{Chrono}
use e_commerce.Common.Outcome.{keep_ok, Result, ok}
use e_commerce.Common.Decimal.{Decimal}
use e_commerce.Common.Currency.{CurrencyDto, amount_fraction_scale}
use e_commerce.Payment.Amount.{
  PayAmountDto, PayLineAmountModel, IsAmountOf, total_amount_eq, default_amount,
}
use e_commerce.Payment.Amount as Amount
use e_commerce.Payment.OrderReplica.{OrderLineModel, OrderLineModelSet, find_line, check_qty_avail}
use e_commerce.Payment.OrderReplica.Currencies.{Matches, Matches-map, keep_ok-ok}
use e_commerce.Payment.Charge.Line.{ChargeLineBuyerModel}
use e_commerce.Payment.Charge.Create.{
  ChargeAmountOlineDto, ChargeReqOrderDto, ChargeBuyerModel, line_try_from, charged_line, try_from,
}
use e_commerce.Payment.Charge.Create.Limits.{IsCovered, Charges, try_from-Charges}

Matches-keep_ok :
    {A E B : Type 0} (f : A → Result E B) (xs : List A) (ys : List B)
    → Matches (λ x y. f x ≡ ok y) xs ys
    → keep_ok f xs ≡ (ys, [])
Matches-keep_ok f [] [] m = refl
Matches-keep_ok f [] (y ∷ ys) m = absurd m
Matches-keep_ok f (x ∷ xs) [] m = absurd m
Matches-keep_ok f (x ∷ xs) (y ∷ ys) (h, m) = rw (keep_ok-ok f x y xs h, Matches-keep_ok f xs ys m)

module _ {D : Type 0} ⦃d : Decimal D⦄ where
  equal_amounts :
      (q : ℕ) (a : PayLineAmountModel D)
      → a.qty ≡ q
      → record { unit = a.unit; total = a.total; qty = q } ≡ a
  equal_amounts q a h = rw (sym h) refl

  IsAmountOf-try_from :
      (q : ℕ) (dto : PayAmountDto) (limit : ℕ) (a : PayLineAmountModel D)
      → IsAmountOf {D = D} q dto limit (Amount.ok a)
      → Amount.try_from {D = D} q dto limit ≡ Amount.ok a
  unfolding Amount.try_from total_amount_eq
  IsAmountOf-try_from q dto limit a (qty, unit, total, places, product) =
      elim (Option-cases (d.checked_mul (d.of_u32 q) a.unit)) [
        | inl over ↦ ground (arith, over)
        | inr (p, e) ↦ ground (arith, e, equal_amounts q a qty)
      ]

  same_line :
      (rl : ChargeAmountOlineDto) (l : ChargeLineBuyerModel D)
      → l.pid ≡ record { store_id = rl.seller_id; product_id = rl.product_id }
      → l.attr_set_seq ≡ rl.attr_set_seq
      → l.amount_refunded ≡ default_amount
      → l.num_rejected ≡ 0
      → charged_line rl l.amount_orig ≡ l
  same_line rl l pid seq refunded rejected = rw (sym pid, sym seq, sym refunded, sym rejected) refl

module _ {T D : Type 0} ⦃d : Decimal D⦄ where
  enough-check_qty_avail :
      (v : OrderLineModel T D) (n : ℕ)
      → v.paid_total.qty + n ≤ v.rsv_total.qty
      → check_qty_avail v n ≡ ok (v.rsv_total.qty - v.paid_total.qty)
  unfolding check_qty_avail
  enough-check_qty_avail v n h = ground arith

module _ {T D : Type 0} ⦃c : Chrono T⦄ ⦃d : Decimal D⦄ where
  IsCovered-line_try_from :
      (olines : List (OrderLineModel T D)) (now : T) (label : CurrencyDto)
      (rl : ChargeAmountOlineDto) (l : ChargeLineBuyerModel D)
      → IsCovered olines label now rl l
      → line_try_from olines rl label now ≡ ok l
  unfolding IsCovered line_try_from find_line
  IsCovered-line_try_from olines now label rl l
        (pid, seq, is, refunded, rejected, (v, found, room, in_time, same)) =
      let good = IsAmountOf-try_from rl.quantity rl.amount (amount_fraction_scale label) _ is in
      let enough = enough-check_qty_avail v rl.quantity room in
      ground (arith, good, found, enough, in_time, same, same_line rl l pid seq refunded rejected)

module _ (T D : Type 0) ⦃c : Chrono T⦄ ⦃d : Decimal D⦄ where
  -- A charge is made of a request exactly when it is of the order that is named, in the currency of
  -- its buyer, with the rates of the order and a new state, and has, in order, for each line of the
  -- request what is asked for, where the first line of the order for it covers it: the amount can
  -- be read, has no more places than the currency and a total that is the number times the unit
  -- price; no more pieces are asked for than are unpaid there; the reservation lasts for at least
  -- 55 seconds more; and the unit price compares equal.
  pub try_from-ok_iff :
      (ms : OrderLineModelSet T D) (req : ChargeReqOrderDto) (now later : T)
      (m : ChargeBuyerModel T D)
      → (try_from ms req now later ≡ ok m) ↔ Charges ms req now later (ok m)
  unfolding Charges try_from
  try_from-ok_iff ms req now later m = (
    λ h. subst (Charges ms req now later) h (try_from-Charges T D ms req now later),
    λ (same, meta, snapshot, (s, buyer, agrees, covered)).
        let f = λ (rl : ChargeAmountOlineDto). line_try_from ms.lines rl s.label now in
        let kept : keep_ok f req.lines ≡ (m.lines, []) = Matches-keep_ok f req.lines m.lines (
          Matches-map _ _ (IsCovered-line_try_from ms.lines now s.label) req.lines m.lines
            covered) in
        rw (same, buyer, agrees, kept, sym meta, sym snapshot) refl,
  )
