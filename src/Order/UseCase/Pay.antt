-- ===== src/Order/UseCase/Pay.antt =====
-- How a payment reaches an order: `OrderPaymentUpdateUseCase` of
-- services/order/src/usecase/manage_order.rs, with `OrderInMemRepo::update_lines_payment` of
-- services/order/src/repository/in_mem/order.rs.
use e_commerce.Common.{
  ℕ, ◌≤◌, ◌≡◌, refl, ◌⊎◌, inl, inr, false, Option, none, some, List, [], ◌∷◌, map, String, length,
  All, ltb, is_empty, if◌then◌else◌, arith, Bool-cases,
}
use e_commerce.Common.Chrono.{Chrono}
use e_commerce.Common.Outcome.{Result, ok, err, ◌>>?◌}
use e_commerce.Contact.{is_none}
use e_commerce.Order.Line.{OrderLineModel}
use e_commerce.Order.Line.Payment.{
  OrderLinePaidUpdateDto, OrderLinePayUpdateErrorDto, update_payments, IsPayable,
  update_payments-IsPayable,
}
use e_commerce.Order.Line.Payment.Retry.{update_payments-again}
use e_commerce.Order.Price.Edit.{AppError}
use e_commerce.Payment.Charge.State.{OrderPaymentUpdateDto, ChargeBuyerMetaModel}
use e_commerce.Payment.Charge.Refresh.{
  OrderPaymentUpdateErrorDto, rpc_update_order, with_detail, unsynced,
}

-- What is called of the store of lines, which is locked from the reading to the writing, and the
-- text of a date that is not read.
pub record PayRepo (T : Type 0) : Type 0 where
  pub fetch_acquire : String → List (ℕ × ℕ × ℕ) → Result AppError (List (OrderLineModel T))
  pub save_release : String → List (OrderLineModel T) → Result AppError (Unit {0})
  pub parse_error : String → String

-- The reply, and the lines that are written.
pub record Paid (T : Type 0) : Type 0 where
  pub reply : Result AppError OrderPaymentUpdateErrorDto
  pub saved : Option (List (OrderLineModel T))

abbrev pub line_errors : String → List OrderLinePayUpdateErrorDto → OrderPaymentUpdateErrorDto
line_errors oid errors = record { oid = oid; charge_time = none; lines = errors }

module _ {T : Type 0} where
  -- saved unless all lines of the message are errors
  abbrev pub with_updated :
      PayRepo T
      → OrderPaymentUpdateDto
      → List (OrderLineModel T) × List OrderLinePayUpdateErrorDto
      → Paid T
  with_updated repo data_ (models, errors) =
      if ltb (length errors) (length data_.lines)
      then record {
        reply = repo.save_release data_.oid models >>? λ u. ok (line_errors data_.oid errors);
        saved = some models;
      }
      else record { reply = ok (line_errors data_.oid errors); saved = none }

module _ {T : Type 0} ⦃c : Chrono T⦄ where
  abbrev pub with_models :
      PayRepo T → OrderPaymentUpdateDto → T → Result AppError (List (OrderLineModel T)) → Paid T
  with_models repo data_ ctime (err e) = record { reply = err e; saved = none }
  with_models repo data_ ctime (ok models) =
      with_updated repo data_ (update_payments models data_.lines ctime)

  -- `update_lines_payment`, with `_update_payment` as the callback
  abbrev pub with_time : PayRepo T → OrderPaymentUpdateDto → Option T → Paid T
  with_time repo data_ none = record {
    reply = ok (record {
      oid = data_.oid;
      charge_time = some (repo.parse_error data_.charge_time);
      lines = [];
    });
    saved = none;
  }
  with_time repo data_ (some ctime) = with_models repo data_ ctime (
      repo.fetch_acquire data_.oid
        (map (λ d. (d.seller_id, d.product_id, d.attr_set_seq)) data_.lines))

  -- `execute`
  unfoldable pub pay_order : PayRepo T → OrderPaymentUpdateDto → Paid T
  pay_order repo data_ = with_time repo data_ (c.parse_rfc3339 data_.charge_time)

module _ {T : Type 0} ⦃c : Chrono T⦄ where
  -- The answer to a message that was applied before.
  abbrev pub Repeats :
      (E : Type 0) → ChargeBuyerMetaModel T → T → OrderPaymentUpdateDto → Paid T → Type 0
  Repeats E meta now data_ p =
      (p.saved ≡ none)
      × ((es : List OrderLinePayUpdateErrorDto) × (length es ≡ length data_.lines)
          × (p.reply ≡ ok (line_errors data_.oid es))
          × (with_detail {E = E} meta now data_ (line_errors data_.oid es)
              ≡ unsynced meta (some data_) (rpc_update_order (line_errors data_.oid es))))

module _ {T : Type 0} ⦃c : Chrono T⦄ (irreflexive : (t : T) → c.lt t t ≡ false) where
  -- Where no instant is before itself: a payment message with a date that is read and at least one
  -- line is received again, when the stored lines are those that it left. Then nothing is written,
  -- the reply has an error for each line, and with this reply the payment service does not take the
  -- charge as known to the order service.
  pub pay_order-Repeats :
      (E : Type 0) (repo : PayRepo T) (data_ : OrderPaymentUpdateDto) (ctime : T)
      (ls : List (OrderLineModel T)) (meta : ChargeBuyerMetaModel T) (now : T)
      → is_empty data_.lines ≡ false
      → c.parse_rfc3339 data_.charge_time ≡ some ctime
      → repo.fetch_acquire data_.oid
          (map (λ d. (d.seller_id, d.product_id, d.attr_set_seq)) data_.lines)
        ≡ ok (update_payments ls data_.lines ctime).0
      → Repeats E meta now data_ (pay_order repo data_)
  unfolding pay_order
  pay_order-Repeats E repo data_ ctime ls meta now some_line parsed stored =
      rw (parsed, stored)
        (go (update_payments (update_payments ls data_.lines ctime).0 data_.lines ctime)
          (update_payments-again irreflexive ctime data_.lines ls))
    where
      not_synced :
          (es : List OrderLinePayUpdateErrorDto)
          → length es ≡ length data_.lines
          → with_detail {E = E} meta now data_ (line_errors data_.oid es)
            ≡ unsynced meta (some data_) (rpc_update_order (line_errors data_.oid es))
      not_synced [] h = nothing data_.lines some_line h
        where
          nothing :
              (ds : List OrderLinePaidUpdateDto)
              → is_empty ds ≡ false
              → length {A = OrderLinePayUpdateErrorDto} [] ≡ length ds
              → with_detail {E = E} meta now data_ (line_errors data_.oid [])
                ≡ unsynced meta (some data_) (rpc_update_order (line_errors data_.oid []))
          nothing [] e h = ground (arith, e)
          nothing (d ∷ ds) e h = ground (arith, h)
      not_synced (e ∷ es) h = refl

      go :
          (r : List (OrderLineModel T) × List OrderLinePayUpdateErrorDto)
          → length r.1 ≡ length data_.lines
          → Repeats E meta now data_ (with_updated repo data_ r)
      go (models, errors) h =
          let all_fail : ltb (length errors) (length data_.lines) ≡ false = ground (arith, h) in
          rw all_fail (refl, (errors, h, refl, not_synced errors h))

module _ {T : Type 0} ⦃c : Chrono T⦄ (repo : PayRepo T) (data_ : OrderPaymentUpdateDto) where
  abbrev line_keys : List (ℕ × ℕ × ℕ)
  line_keys = map (λ d. (d.seller_id, d.product_id, d.attr_set_seq)) data_.lines

  -- What is written are the stored lines with the payments, and they are payable. If nothing is
  -- written, the reply is an error, or it names the date or each line of the message.
  abbrev pub PaysWith : Paid T → Option (List (OrderLineModel T)) → Type 0
  PaysWith p (some ms) =
      (ctime : T) × (ls : List (OrderLineModel T)) × (c.parse_rfc3339 data_.charge_time
        ≡ some ctime)
      × (repo.fetch_acquire data_.oid line_keys ≡ ok ls)
      × (ms ≡ (update_payments ls data_.lines ctime).0)
      × All IsPayable ms
  PaysWith p none = elim p.reply [
    | err e ↦ Unit
    | ok r ↦ (is_none r.charge_time ≡ false) ⊎ (length data_.lines ≤ length r.lines)
  ]

  pub Pays : Paid T → Type 0
  Pays p = PaysWith p p.saved

  -- A payment message reaches lines that are paid for no more than is reserved. If lines are
  -- written, they are the stored ones with the payments of the message at its time, and again paid
  -- for no more than is reserved. If none are written, the reply is an error, or it names the date
  -- or as many lines as the message has.
  pub pay_order-Pays :
      ((ls : List (OrderLineModel T))
        → repo.fetch_acquire data_.oid line_keys ≡ ok ls
        → All IsPayable ls)
      → Pays (pay_order repo data_)
  unfolding Pays pay_order
  pay_order-Pays payable = timed (c.parse_rfc3339 data_.charge_time) refl
    where
      updated :
          (ctime : T) (ls : List (OrderLineModel T))
          → c.parse_rfc3339 data_.charge_time ≡ some ctime
          → repo.fetch_acquire data_.oid line_keys ≡ ok ls
          → Pays (with_updated repo data_ (update_payments ls data_.lines ctime))
      updated ctime ls parsed stored =
          let (models, errors) = update_payments ls data_.lines ctime in
          elim (Bool-cases (ltb (length errors) (length data_.lines))) [
            | inl few ↦ rw few (
              ctime,
              ls,
              parsed,
              stored,
              refl,
              update_payments-IsPayable ls data_.lines ctime (payable ls stored),
            )
            | inr all ↦ rw all (inr (ground (arith, all)))
          ]

      stored_lines :
          (ctime : T) (r : Result AppError (List (OrderLineModel T)))
          → c.parse_rfc3339 data_.charge_time ≡ some ctime
          → repo.fetch_acquire data_.oid line_keys ≡ r
          → Pays (with_models repo data_ ctime r)
      stored_lines ctime (err e) parsed stored = tt
      stored_lines ctime (ok ls) parsed stored = updated ctime ls parsed stored

      timed : (o : Option T) → c.parse_rfc3339 data_.charge_time ≡ o → Pays (with_time repo data_ o)
      timed none parsed = inl refl
      timed (some ctime) parsed =
          stored_lines ctime (repo.fetch_acquire data_.oid line_keys) parsed refl
