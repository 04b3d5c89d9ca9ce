-- ===== src/Payment/OrderReplica/Handover/Taken.antt =====
-- Which orders the payment service takes from the order service.
use mathlib.Core.Path.{subst}
use e_commerce.Common.{
  ℕ, ◌≡◌, refl, ap, inl, inr, true, false, List, [], ◌∷◌, map, String, is_empty, All, arith,
}
use e_commerce.Common.Chrono.{Chrono}
use e_commerce.Common.Decimal.{Decimal, IsDecimal}
use e_commerce.Common.Outcome.{Outcome, returned, panicked, Result, ok, err, keep_ok}
use e_commerce.Contact.Billing.{BillingModel}
use e_commerce.Order.Line.{OrderLineModel, store_id}
use e_commerce.Order.Currency.{OrderCurrencyModel, seller_dtos, snapshot_dto}
use e_commerce.Order.Price.Edit.{AppError}
use e_commerce.Order.Replica.{line_of, line_dto, replica_of, replica_paym_dto}
use e_commerce.Payment.OrderReplica.{
  OrderLinePayDto, OrderModelError, OrderLineModelSet, OrderCurrencySnapshotDto, CurrencyMap, get,
  contains, uncovered, errors_of, verify_seller_currency_integrity, try_build_currency_snapshot,
  line_try_from, with_currencies, try_from,
}
use e_commerce.Payment.OrderReplica as OrderReplica
use e_commerce.Payment.OrderReplica.Currencies.{Matches, keep_ok-Matches, try_build-Has}
use e_commerce.Payment.OrderReplica.Handover.{
  Agrees, IsReserved, to_buyer_rate-name, line_of-cases, lines-Takes,
}
use e_commerce.Payment.OrderReplica.Handover.Rates.{
  uncovered-nil, snapshot_dto-built, get_rate-contains,
}
use e_commerce.Payment.Charge.Request.{OrderReplicaPaymentDto}

module _ {T D : Type 0} ⦃c : Chrono T⦄ ⦃d : Decimal D⦄ where
  -- Each seller of a line is among those with a currency.
  sellers-covered :
      (cm : OrderCurrencyModel D) (ls : List (OrderLineModel T)) (xs : List OrderLinePayDto)
      → Matches (λ l x. line_of cm l ≡ ok x) ls xs
      → All
          (λ k. contains k (map (λ s. s.seller_id) (seller_dtos cm.sellers)) ≡ true)
          (map (λ x. x.seller_id) xs)
  unfolding line_dto
  sellers-covered cm [] [] m = tt
  sellers-covered cm [] (x ∷ xs) m = absurd m
  sellers-covered cm (l ∷ ls) [] m = absurd m
  sellers-covered cm (l ∷ ls) (x ∷ xs) (m, ms) =
      let (rate, e, same) = line_of-cases cm l x m in
      let (name, (v, found)) = to_buyer_rate-name cm (store_id l.id_) rate e in
      (
        subst
            (λ (y : OrderLinePayDto).
              contains y.seller_id (map (λ s. s.seller_id) (seller_dtos cm.sellers)) ≡ true)
            same (get_rate-contains (store_id l.id_) v cm.sellers found),
        sellers-covered cm ls xs ms,
      )

  -- What the payment service makes of the copy.
  pub IsTaken :
      String
      → ℕ
      → OrderCurrencyModel D
      → List (OrderLineModel T)
      → Outcome (Result (List OrderModelError) (OrderLineModelSet T D))
      → Type 0
  IsTaken oid usr_id cm ls panicked = ⊥
  IsTaken oid usr_id cm ls (returned (ok m)) =
      (m.id ≡ oid) × (m.buyer_id ≡ usr_id) × All (Agrees cm) ls
  IsTaken oid usr_id cm ls (returned (err es)) = (is_empty es ≡ false) × ¬ All (Agrees cm) ls

  with_currencies-IsTaken :
      (oid : String) (usr_id : ℕ) (cm : OrderCurrencyModel D) (ls : List (OrderLineModel T))
      (xs : List OrderLinePayDto) (now : T)
      → IsDecimal D
      → All (IsReserved now) ls
      → Matches (λ l x. line_of cm l ≡ ok x) ls xs
      → (m : CurrencyMap D) → try_build_currency_snapshot usr_id (snapshot_dto cm) ≡ ok m
      → IsTaken oid usr_id cm ls (with_currencies oid usr_id xs now (ok m))
  unfolding IsTaken snapshot_dto
  with_currencies-IsTaken oid usr_id cm ls xs now dec reserved matches m built =
      let ((s, got, label), sellers) = try_build-Has usr_id (snapshot_dto cm) m built in
      let lines =
        λ (l : _). keep_ok {B = OrderReplica.OrderLineModel T D} (λ x. line_try_from x l now) xs in
      elim (lines-Takes cm ls xs now dec reserved matches) [
        | inl (e, all) ↦ rw (got, label, with_currencies, e) (refl, refl, all)
        | inr (e, some_bad) ↦ rw (got, label, with_currencies, e) (e, some_bad)
      ]

  -- With no errors on the way, the lines decide.
  IsTaken-lines :
      (oid : String) (usr_id : ℕ) (cm : OrderCurrencyModel D) (ls : List (OrderLineModel T))
      (xs : List OrderLinePayDto) (now : T)
      → IsDecimal D
      → is_empty xs ≡ false
      → All (IsReserved now) ls
      → Matches (λ l x. line_of cm l ≡ ok x) ls xs
      → IsTaken oid usr_id cm ls (try_from oid usr_id xs (snapshot_dto cm) now)
  unfolding try_from verify_seller_currency_integrity snapshot_dto
  IsTaken-lines oid usr_id cm ls xs now dec some_line reserved matches =
      let (m, built) = snapshot_dto-built usr_id cm dec in
      let covered =
        uncovered-nil (map (λ x. x.seller_id) xs) (map (λ s. s.seller_id) (seller_dtos cm.sellers))
          (sellers-covered cm ls xs matches) in
      rw (some_line, covered, built)
        (with_currencies-IsTaken oid usr_id cm ls xs now dec reserved matches m built)

  -- The order service sends the copy of an order with at least one line, where each line reserves a
  -- piece, beyond the present time, which is read as it is printed, and decimals are read as they
  -- are printed and have no more places than they are cut to. If the payment service takes the
  -- copy, it has the number and the owner of the order, and each line agrees: in the currency of
  -- the buyer, cut to its places, the total compares equal to the price of the pieces. If it
  -- refuses the copy, some line does not agree.
  pub replica_paym_dto-IsTaken :
      (oid : String) (usr_id : ℕ) (ls : List (OrderLineModel T)) (cm : OrderCurrencyModel D)
      (billing : BillingModel) (now : T) (dto : OrderReplicaPaymentDto)
      → IsDecimal D
      → is_empty ls ≡ false
      → All (IsReserved now) ls
      → replica_paym_dto oid usr_id ls cm billing ≡ ok dto
      → IsTaken oid usr_id cm ls (try_from dto.oid dto.usr_id dto.lines dto.currency now)
  unfolding replica_paym_dto
  replica_paym_dto-IsTaken oid usr_id ls cm billing now dto dec some_line reserved sent =
      go (keep_ok (line_of cm) ls).0 (keep_ok (line_of cm) ls).1 refl refl sent
    where
      not_empty :
          (ms : List (OrderLineModel T)) (xs : List OrderLinePayDto)
          → is_empty ms ≡ false
          → Matches (λ l x. line_of cm l ≡ ok x) ms xs
          → is_empty xs ≡ false
      not_empty [] xs h m = ground (arith, h)
      not_empty (l ∷ ms) [] h m = absurd m
      not_empty (l ∷ ms) (x ∷ xs) h m = refl

      go :
          (xs : List OrderLinePayDto) (es : List AppError)
          → (keep_ok (line_of cm) ls).0 ≡ xs
          → (keep_ok (line_of cm) ls).1 ≡ es
          → replica_of oid usr_id cm billing (xs, es) ≡ ok dto
          → IsTaken oid usr_id cm ls (try_from dto.oid dto.usr_id dto.lines dto.currency now)
      go xs (e ∷ es) ex ee h = ground (arith, h)
      go xs [] ex ee h =
          let matches =
            subst (λ ys. Matches (λ l x. line_of cm l ≡ ok x) ls ys) ex
              (keep_ok-Matches (line_of cm) ls (ap is_empty ee)) in
          subst
            (λ (r : Result AppError OrderReplicaPaymentDto). elim r [
              | ok y ↦ IsTaken oid usr_id cm ls (try_from y.oid y.usr_id y.lines y.currency now)
              | err y ↦ Unit
            ])
            h
            (IsTaken-lines oid usr_id cm ls xs now dec (not_empty ls xs some_line matches) reserved
              matches)
