-- ===== src/Payment/Tests/Handover.antt =====
-- Copies of orders that the payment service takes or refuses.
use e_commerce.Common.{ℕ, ◌*◌, ◌≡◌, refl, none, [], ◌∷◌, arith}
use e_commerce.Common.Chrono.{Millis, millis_chrono}
use e_commerce.Common.Currency.{usd, twd, amount_fraction_scale}
use e_commerce.Payment.Tests.Mills.{Mills, mills_decimal, Mills-IsDecimal}
use e_commerce.Common.Outcome.{ok}
use e_commerce.Contact.Billing.{BillingModel, billing_dto}
use e_commerce.Order.Currency.{OrderCurrencyModel, to_buyer_rate, snapshot_dto}
use e_commerce.Order.Line.{OrderLineModel}
use e_commerce.Order.Replica.{replica_paym_dto, line_dto}
use e_commerce.Order.Tests.{line}
use e_commerce.Payment.Charge.Request.{OrderReplicaPaymentDto}
use e_commerce.Payment.OrderReplica.{try_from}
use e_commerce.Payment.OrderReplica.Handover.{Agrees}
use e_commerce.Payment.OrderReplica.Handover.Taken.{IsTaken, replica_paym_dto-IsTaken}

-- One unit of the buyer's currency is 0.333 of the base currency, which the seller has.
abbrev rates : OrderCurrencyModel Mills
rates = record {
  buyer = record { name = usd; rate = 333 };
  sellers = (7, record { name = twd; rate = 1000 }) ∷ [];
}

abbrev bought : ℕ → ℕ → OrderLineModel Millis
bought unit n = record (line 3 n 0) {
  price = record { unit = unit; total = unit * n };
  policy = record { reserved_until = 43_200_000; warranty_until = 1_000_000_000 };
}

abbrev payer : BillingModel
payer = record {
  contact = record { first_name = "Ann"; last_name = "Lee"; emails = "ann@a.tw" ∷ []; phones = [] };
  address = none;
}

-- Three pieces at 5 cost 1.66 each, and 4.99 together.
refused : ¬ Agrees rates (bought 5 3)
unfolding to_buyer_rate amount_fraction_scale
refused = λ (r, e, (p, e', h)). ground (arith, e, e', h)

abbrev copy : OrderReplicaPaymentDto
copy = record {
  oid = "o1";
  usr_id = 5;
  lines = line_dto {D = Mills} (bought 10 3) (record { name = usd; rate = 333 }) ∷ [];
  billing = billing_dto payer;
  currency = snapshot_dto {D = Mills} rates;
}

copied : replica_paym_dto "o1" 5 (bought 10 3 ∷ []) rates payer ≡ ok copy
unfolding replica_paym_dto to_buyer_rate
copied = refl

replica_paym_dto-IsTaken_example :
    IsTaken "o1" 5 rates
      (bought 10 3 ∷ [])
      (try_from copy.oid copy.usr_id copy.lines copy.currency 20_000)
replica_paym_dto-IsTaken_example =
    replica_paym_dto-IsTaken "o1" 5 (bought 10 3 ∷ []) rates payer 20_000 copy Mills-IsDecimal refl
      (ground arith) copied
