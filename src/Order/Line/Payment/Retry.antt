-- ===== src/Order/Line/Payment/Retry.antt =====
-- A payment message that arrives again changes nothing.
use e_commerce.Common.{
  ℕ, suc, ◌≡◌, refl, ap, false, Option, none, some, List, [], ◌∷◌, length, arith, All, ◌⊎◌,
}
use e_commerce.Contact.{is_none}
use e_commerce.Common.Chrono.{Chrono}
use e_commerce.Order.Line.{OrderLineModel, OrderLineQuantityModel}
use e_commerce.Order.Line.Payment.{
  OrderLinePaidUpdateDto, OrderLinePayUpdateErrorReason, push_pay_error, pay_quantity, pay_line,
  update_payments,
}

module _ {T : Type 0} ⦃c : Chrono T⦄ (irreflexive : (t : T) → c.lt t t ≡ false) where
  -- A payment of the time `t` has no more effect on the lines.
  abbrev IsSettled : T → List (OrderLineModel T) → OrderLinePaidUpdateDto → Type 0
  IsSettled t ms d = (pay_line t d ms).0 ≡ ms

  pay_quantity_twice :
      (n k : ℕ) (t : T) (q : OrderLineQuantityModel T)
      → ((pay_quantity n t q).0 ≡ q)
        ⊎ ((pay_quantity k t (pay_quantity n t q).0).0 ≡ (pay_quantity n t q).0)
  unfolding pay_quantity
  pay_quantity_twice n k t q = ground (arith, irreflexive t)

  pay_line-IsSettled :
      (t : T) (d e : OrderLinePaidUpdateDto) (ms : List (OrderLineModel T))
      → IsSettled t ms d
      → IsSettled t (pay_line t e ms).0 d
  unfolding pay_line
  pay_line-IsSettled t d e [] h = refl
  pay_line-IsSettled t d e (m ∷ ms) h =
      ground (arith, pay_quantity_twice e.qty d.qty t m.qty, pay_line-IsSettled t d e ms)

  pay_line-settles :
      (t : T) (d : OrderLinePaidUpdateDto) (ms : List (OrderLineModel T))
      → IsSettled t (pay_line t d ms).0 d
  unfolding pay_line
  pay_line-settles t d [] = refl
  pay_line-settles t d (m ∷ ms) =
      ground (arith, pay_quantity_twice d.qty d.qty t m.qty, pay_line-settles t d ms)

  update_payments-keeps :
      (t : T) (d : OrderLinePaidUpdateDto) (ds : List OrderLinePaidUpdateDto)
      (ms : List (OrderLineModel T))
      → IsSettled t ms d
      → IsSettled t (update_payments ms ds t).0 d
  unfolding update_payments
  update_payments-keeps t d [] ms h = h
  update_payments-keeps t d (e ∷ ds) ms h =
      update_payments-keeps t d ds (pay_line t e ms).0 (pay_line-IsSettled t d e ms h)

  update_payments-settles :
      (t : T) (ds : List OrderLinePaidUpdateDto) (ms : List (OrderLineModel T))
      → All (IsSettled t (update_payments ms ds t).0) ds
  unfolding update_payments
  update_payments-settles t [] ms = tt
  update_payments-settles t (d ∷ ds) ms = (
    update_payments-keeps t d ds (pay_line t d ms).0 (pay_line-settles t d ms),
    update_payments-settles t ds (pay_line t d ms).0,
  )

  update_payments-fixed :
      (t : T) (ds : List OrderLinePaidUpdateDto) (ms : List (OrderLineModel T))
      → All (IsSettled t ms) ds
      → (update_payments ms ds t).0 ≡ ms
  unfolding update_payments
  update_payments-fixed t [] ms h = refl
  update_payments-fixed t (d ∷ ds) ms (h, hs) = rw h (update_payments-fixed t ds ms hs)

  -- Where no instant is before itself, a payment message that arrives a second time changes no
  -- line.
  pub update_payments_idem :
      (t : T) (ds : List OrderLinePaidUpdateDto) (ms : List (OrderLineModel T))
      → (update_payments (update_payments ms ds t).0 ds t).0 ≡ (update_payments ms ds t).0
  update_payments_idem t ds ms =
      update_payments-fixed t ds (update_payments ms ds t).0 (update_payments-settles t ds ms)

  -- A payment of the time `t` is answered by an error.
  abbrev IsRefused : T → List (OrderLineModel T) → OrderLinePaidUpdateDto → Type 0
  IsRefused t ms d = is_none (pay_line t d ms).1 ≡ false

  pay_quantity_refuses :
      (n k : ℕ) (t : T) (q : OrderLineQuantityModel T)
      → ((pay_quantity n t q).0 ≡ q) ⊎ (is_none (pay_quantity k t (pay_quantity n t q).0).1 ≡ false)
  unfolding pay_quantity
  pay_quantity_refuses n k t q = ground (arith, irreflexive t)

  pay_quantity_again :
      (n : ℕ) (t : T) (q : OrderLineQuantityModel T)
      → is_none (pay_quantity n t (pay_quantity n t q).0).1 ≡ false
  unfolding pay_quantity
  pay_quantity_again n t q = ground (arith, irreflexive t)

  pay_line-IsRefused :
      (t : T) (d e : OrderLinePaidUpdateDto) (ms : List (OrderLineModel T))
      → IsRefused t ms d
      → IsRefused t (pay_line t e ms).0 d
  unfolding pay_line
  pay_line-IsRefused t d e [] h = refl
  pay_line-IsRefused t d e (m ∷ ms) h =
      ground (arith, pay_quantity_refuses e.qty d.qty t m.qty, pay_line-IsRefused t d e ms)

  pay_line-refuses :
      (t : T) (d : OrderLinePaidUpdateDto) (ms : List (OrderLineModel T))
      → IsRefused t (pay_line t d ms).0 d
  unfolding pay_line
  pay_line-refuses t d [] = refl
  pay_line-refuses t d (m ∷ ms) =
      ground (arith, pay_quantity_again d.qty t m.qty, pay_line-refuses t d ms)

  update_payments-IsRefused :
      (t : T) (d : OrderLinePaidUpdateDto) (ds : List OrderLinePaidUpdateDto)
      (ms : List (OrderLineModel T))
      → IsRefused t ms d
      → IsRefused t (update_payments ms ds t).0 d
  unfolding update_payments
  update_payments-IsRefused t d [] ms h = h
  update_payments-IsRefused t d (e ∷ ds) ms h =
      update_payments-IsRefused t d ds (pay_line t e ms).0 (pay_line-IsRefused t d e ms h)

  update_payments-refuses :
      (t : T) (ds : List OrderLinePaidUpdateDto) (ms : List (OrderLineModel T))
      → All (IsRefused t (update_payments ms ds t).0) ds
  unfolding update_payments
  update_payments-refuses t [] ms = tt
  update_payments-refuses t (d ∷ ds) ms = (
    update_payments-IsRefused t d ds (pay_line t d ms).0 (pay_line-refuses t d ms),
    update_payments-refuses t ds (pay_line t d ms).0,
  )

  refused-length :
      (t : T) (ds : List OrderLinePaidUpdateDto) (ms : List (OrderLineModel T))
      → All (IsSettled t ms) ds
      → All (IsRefused t ms) ds
      → length (update_payments ms ds t).1 ≡ length ds
  unfolding update_payments
  refused-length t [] ms hs rs = refl
  refused-length t (d ∷ ds) ms (h, hs) (r, rs) =
      pushed (pay_line t d ms).1 r (ap suc (rw h (refused-length t ds ms hs rs)))
    where
      pushed :
          (o : Option OrderLinePayUpdateErrorReason)
          → is_none o ≡ false
          → suc (length (update_payments (pay_line t d ms).0 ds t).1) ≡ suc (length ds)
          → length (push_pay_error d o (update_payments (pay_line t d ms).0 ds t).1)
            ≡ suc (length ds)
      pushed none r e = ground (arith, r)
      pushed (some x) r e = e

  -- A message that arrives a second time is answered by an error for each line.
  pub update_payments-again :
      (t : T) (ds : List OrderLinePaidUpdateDto) (ms : List (OrderLineModel T))
      → length (update_payments (update_payments ms ds t).0 ds t).1 ≡ length ds
  update_payments-again t ds ms =
      refused-length t ds (update_payments ms ds t).0 (update_payments-settles t ds ms)
        (update_payments-refuses t ds ms)
