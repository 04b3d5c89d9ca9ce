-- ===== src/Order/Tests/Payments.antt =====
-- Runs of payments that reach an order.
use e_commerce.Common.{ℕ, ◌≡◌, refl, false, List, [], ◌∷◌, All, arith}
use mathlib.Core.Path.{subst}
use e_commerce.Common.Chrono.{Millis, millis_chrono}
use e_commerce.Common.Outcome.{Result, ok, err}
use e_commerce.Order.Line.{OrderLineModel}
use e_commerce.Order.Line.Payment.{update_payments, IsPayable}
use e_commerce.Order.Price.Edit.{AppError}
use e_commerce.Order.Tests.{line}
use e_commerce.Order.UseCase.Pay.{
  PayRepo, Pays, Repeats, pay_order, pay_order-Pays, pay_order-Repeats,
}
use e_commerce.Payment.Charge.State.{OrderPaymentUpdateDto}
use e_commerce.Payment.Tests.Charges.{meta}

abbrev message : OrderPaymentUpdateDto
message = record {
  oid = "o1";
  charge_time = "noon";
  lines =
      record { seller_id = 7; product_id = 3; attr_set_seq = 0; qty = 3 }
      ∷ record { seller_id = 7; product_id = 4; attr_set_seq = 0; qty = 9 }
      ∷ [];
}

abbrev bought : List (OrderLineModel Millis)
bought = line 3 5 1 ∷ line 4 2 0 ∷ []

abbrev keeps : List (OrderLineModel Millis) → PayRepo Millis
keeps ls = record {
  fetch_acquire = λ oid ids. ok ls;
  save_release = λ oid ms. ok tt;
  parse_error = λ s. "invalid";
}

kept-IsPayable :
    (ls : List (OrderLineModel Millis))
    → (keeps bought).fetch_acquire "o1" [] ≡ ok ls
    → All IsPayable ls
kept-IsPayable ls h =
    subst
      (λ (r : Result AppError (List (OrderLineModel Millis))). elim r [
        | ok x ↦ All IsPayable x
        | err e ↦ Unit
      ])
      h (ground arith)

pay_order-Pays_example : Pays (keeps bought) message (pay_order (keeps bought) message)
pay_order-Pays_example = pay_order-Pays (keeps bought) message kept-IsPayable

irreflexive : (t : Millis) → millis_chrono.lt t t ≡ false
irreflexive t = ground arith

pay_order-Repeats_example :
    Repeats ℕ meta 50_000_000 message
      (pay_order (keeps (update_payments bought message.lines 43_200_000).0) message)
pay_order-Repeats_example =
    pay_order-Repeats irreflexive ℕ (keeps (update_payments bought message.lines 43_200_000).0)
      message 43_200_000 bought meta 50_000_000 refl refl refl
