-- ===== src/Payment/Tests/Charges.antt =====
-- Runs of charges from the copy of an order to the last refresh: the witnesses of their theorems.
use mathlib.Core.Path.{subst}
use e_commerce.Common.{sym, inl, ℕ, ◌≡◌, ◌↔◌, refl, true, none, some, List, [], ◌∷◌, String, arith}
use e_commerce.Common.Chrono.{Millis, millis_chrono}
use e_commerce.Common.Outcome.{ok, returned}
use e_commerce.Order.Line.{BaseProductIdentity}
use e_commerce.Payment.Tests.{Cents, cents_decimal}
use e_commerce.Payment.Tests.Tokens.{seconds_calendar, Seconds-IsCalendar}
use e_commerce.Common.Currency.{usd, currency_eq, amount_fraction_scale}
use e_commerce.Payment.OrderReplica.{
  OrderLinePayDto, OrderCurrencySnapshotDto, OrderLineModel, OrderLineModelSet, find_line,
  check_qty_avail,
}
use e_commerce.Payment.Amount.{total_amount_eq}
use e_commerce.Payment.Amount as Amount
use e_commerce.Payment.OrderReplica as OrderReplica
use e_commerce.Payment.OrderReplica.Replicates.{Replicates, try_from-Replicates}
use e_commerce.Payment.Charge.Line.{ChargeLineBuyerModel}
use e_commerce.Payment.Charge.Create.{
  ChargeAmountOlineDto, ChargeReqOrderDto, ChargeBuyerModel, charged_line, line_try_from, try_from,
}
use e_commerce.Payment.Charge.Create.Limits.{Charges, try_from-Charges}
use e_commerce.Payment.Charge.Create.Exact.{try_from-ok_iff}
use e_commerce.Payment.Charge.Token.{encode, compact_bitvec}
use e_commerce.Payment.Charge.State.{
  ChargeBuyerMetaModel, Charge3partyModel, stripe, complete, open_, paid, unpaid,
  processor_accepted, order_app_synced, started, new_meta, update_progress, update_3party,
  pay_in_confirmed, stripe_confirmed, is_paid,
}
use e_commerce.Payment.Charge.Refresh.{
  RefreshContext, Readings, refresh_meta, execute, proceed, sync_order_app, refresh_3pty_processor,
}
use e_commerce.Payment.Charge.Refresh.Later.{Advances}
use e_commerce.Payment.Charge.Refresh.Steps.{refresh_meta-Advances}
use e_commerce.Payment.Charge.Refresh.Life.{Reaches, here, refreshed, IsSound, Reaches-IsSound}
use e_commerce.Payment.Charge.Refresh.Liveness.{
  TakesPayment, Completes, reported, execute-Completes,
}

abbrev item : BaseProductIdentity
item = record { store_id = 7; product_id = 3 }

abbrev pub line_dto : OrderLinePayDto
line_dto = record {
  seller_id = 7;
  product_id = 3;
  attr_set_seq = 0;
  reserved_until = "noon";
  quantity = 4;
  amount = record { unit = "5"; total = "20" };
}

abbrev pub currencies_dto : OrderCurrencySnapshotDto
currencies_dto = record {
  snapshot = record { name = usd; rate = "10" } ∷ [];
  sellers = record { currency = usd; seller_id = 7 } ∷ [];
  buyer = usd;
}

try_from-Replicates_example :
    Replicates {T = Millis} {D = Cents} "o1" 5
      (line_dto ∷ [])
      currencies_dto
      1000
      (OrderReplica.try_from "o1" 5 (line_dto ∷ []) currencies_dto 1000)
try_from-Replicates_example =
    try_from-Replicates Millis Cents "o1" 5 (line_dto ∷ []) currencies_dto 1000

abbrev order : OrderLineModelSet Millis Cents
order = record {
  id = "o1";
  buyer_id = 5;
  lines =
      record {
        pid = item;
        attr_set_seq = 0;
        rsv_total = record { unit = 5; total = 20; qty = 4 };
        paid_total = record { unit = 0; total = 0; qty = 0 };
        reserved_until = 43_200_000;
      }
      ∷ [];
  create_time = 1000;
  num_charges = 0;
  currency_snapshot =
      (7, record { label = usd; rate = 10 }) ∷ (5, record { label = usd; rate = 10 }) ∷ [];
}

abbrev line_req : ChargeAmountOlineDto
line_req = record {
  seller_id = 7;
  product_id = 3;
  attr_set_seq = 0;
  quantity = 4;
  amount = record { unit = "5"; total = "20" };
}

abbrev pub charge_req : ChargeReqOrderDto
charge_req = record { id = "o1"; lines = line_req ∷ []; currency = usd }

try_from-Charges_example : Charges order charge_req 2000 3000 (try_from order charge_req 2000 3000)
try_from-Charges_example = try_from-Charges Millis Cents order charge_req 2000 3000

abbrev all_of_it : ChargeLineBuyerModel Cents
all_of_it = charged_line line_req (record { unit = 5; total = 20; qty = 4 })

abbrev charge : ChargeBuyerModel Millis Cents
charge = record {
  meta = new_meta "o1" 5 3000;
  currency_snapshot = order.currency_snapshot;
  lines = all_of_it ∷ [];
}

accepted : try_from order charge_req 2000 3000 ≡ ok charge
unfolding try_from line_try_from new_meta currency_eq amount_fraction_scale find_line
    check_qty_avail Amount.try_from total_amount_eq
accepted = refl

-- Four pieces are unpaid, and eight are charged where the line is named twice.
abbrev twice_req : ChargeReqOrderDto
twice_req = record charge_req { lines = line_req ∷ line_req ∷ [] }

abbrev charged_twice : ChargeBuyerModel Millis Cents
charged_twice = record charge { lines = all_of_it ∷ all_of_it ∷ [] }

try_from-ok_iff_example :
    (try_from order twice_req 2000 3000 ≡ ok charged_twice)
    ↔ Charges order twice_req 2000 3000 (ok charged_twice)
try_from-ok_iff_example = try_from-ok_iff Millis Cents order twice_req 2000 3000 charged_twice

accepted_twice : try_from order twice_req 2000 3000 ≡ ok charged_twice
unfolding try_from line_try_from new_meta currency_eq amount_fraction_scale find_line
    check_qty_avail Amount.try_from total_amount_eq
accepted_twice = refl

abbrev session : Charge3partyModel ℕ
session = stripe (record {
  checkout_session_id = "cs";
  session_state = open_;
  payment_state = unpaid;
  payment_intent_id = "pi";
  transfer_group = "tg";
  expiry = 60_000_000_000;
})

abbrev paid_session : Charge3partyModel ℕ
paid_session = stripe (record {
  checkout_session_id = "cs";
  session_state = complete;
  payment_state = paid;
  payment_intent_id = "pi";
  transfer_group = "tg";
  expiry = 60_000_000_000;
})

abbrev pub meta : ChargeBuyerMetaModel ℕ
meta = record {
  owner = 5;
  create_time = 58_760_000_000;
  oid = "o1";
  state = processor_accepted 58_760_000_007;
  method = session;
}

-- a world that takes the payment
abbrev ctx : RefreshContext ℕ Cents String
ctx = record {
  fetch_charge_meta = λ owner t. ok (some meta);
  fetch_all_charge_lines = λ owner t. ok (all_of_it ∷ []);
  update_charge_progress = λ m. ok tt;
  pay_in_progress = λ m. ok paid_session;
  acquire = ok tt;
  send_and_receive = λ usr t message. ok "reply";
  parse_reply = λ s. ok (record { oid = "o1"; charge_time = none; lines = [] });
}

abbrev readings : Readings ℕ
readings = record {
  at_processor = 58_760_000_100;
  at_sync = 58_760_000_101;
  at_reply = 58_760_000_102;
}

refresh_meta-Advances_example : Advances meta (refresh_meta ctx readings meta)
refresh_meta-Advances_example = refresh_meta-Advances ctx readings meta (inl refl)

abbrev final : ChargeBuyerMetaModel ℕ
final = record meta { state = order_app_synced 58_760_000_101; method = paid_session }

is_started : started "o1" 5 58_760_000_000 58_760_000_007 session ≡ meta
unfolding started update_3party update_progress new_meta
is_started = refl

one_refresh : (refresh_meta ctx readings meta).written ≡ some final
unfolding refresh_meta refresh_3pty_processor proceed sync_order_app update_3party update_progress
    pay_in_confirmed stripe_confirmed is_paid
one_refresh = refl

Reaches-IsSound_example : IsSound ℕ Cents String meta final
Reaches-IsSound_example =
    Reaches-IsSound ℕ Cents String "o1" 5 58_760_000_000 58_760_000_007 session meta final
      (subst (λ m. Reaches ℕ Cents String m meta) (sym is_started) here)
      (refreshed ctx readings meta final here one_refresh)

abbrev token : List ℕ
token = 0 ∷ 0 ∷ 0 ∷ 5 ∷ 31 ∷ 160 ∷ 130 ∷ 227 ∷ 84 ∷ []

is_token : encode 5 meta.create_time ≡ returned token
unfolding encode compact_bitvec
is_token = refl

takes : TakesPayment ctx (reported meta paid_session readings.at_processor)
unfolding update_3party update_progress
takes = record {
  chg_lines = all_of_it ∷ [];
  reply = "reply";
  acquired = refl;
  loaded = refl;
  replied = refl;
  accepted = refl;
}

is_pending : pay_in_confirmed meta.method ≡ none
unfolding pay_in_confirmed stripe_confirmed
is_pending = refl

is_paid_now : pay_in_confirmed paid_session ≡ some true
unfolding pay_in_confirmed stripe_confirmed is_paid
is_paid_now = refl

execute-Completes_example :
    Completes {E = String} meta
      (all_of_it ∷ [])
      58_760_000_101
      (execute ctx readings 5 true (ok token))
unfolding takes
execute-Completes_example =
    execute-Completes Seconds-IsCalendar ctx readings meta paid_session token (omega arith) refl
      (omega arith) refl is_token refl refl is_pending refl is_paid_now takes refl
