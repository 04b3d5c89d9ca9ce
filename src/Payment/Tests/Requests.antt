-- ===== src/Payment/Tests/Requests.antt =====
-- A run of the request of a charge, whose order is not known yet.
use e_commerce.Common.{true, false, none, some, [], ◌∷◌, String}
use e_commerce.Common.Chrono.{Millis, millis_chrono}
use e_commerce.Common.Outcome.{ok}
use e_commerce.Contact.Tests.{ascii, payer}
use e_commerce.Payment.Auth.{AppAuthedClaim, can_create_charge, num_charges_per_order}
use e_commerce.Payment.Tests.{Cents, cents_decimal}
use e_commerce.Payment.Tests.Charges.{line_dto, currencies_dto, charge_req}
use e_commerce.Payment.Charge.State.{processor_accepted, stripe, open_, unpaid}
use e_commerce.Payment.Charge.Request.{
  RequestContext, RequestTimes, ChargeReqDto, OrderReplicaPaymentDto,
}
use e_commerce.Payment.Charge.Request.Steps.{execute}
use e_commerce.Payment.Charge.Request.Trace.{Follows, execute-Follows}

abbrev buyer : AppAuthedClaim
buyer = record {
  profile = 5;
  perms = record { app_code = 7; codename = can_create_charge } ∷ [];
  quota = record { app_code = 7; mat_code = num_charges_per_order; maxnum = 3 } ∷ [];
}

abbrev copied : OrderReplicaPaymentDto
copied = record {
  oid = "o1";
  usr_id = 5;
  lines = line_dto ∷ [];
  currency = currencies_dto;
  billing = payer;
}

abbrev world : RequestContext Millis Cents String String String
world = record {
  fetch_charge_ids = λ oid. ok (some (5, 900 ∷ []));
  get_unpaid_olines = λ usr oid. ok none;
  lock_acquire = λ usr oid. ok true;
  lock_release = λ usr oid. ok tt;
  acquire = ok tt;
  send_and_receive = λ usr t oid. ok "reply";
  parse_reply = λ s. ok copied;
  create_order = λ o b. ok tt;
  pay_in_start = λ m mthd. ok (
    record {
      charge_id = 0 ∷ 171 ∷ [];
      method = "redirect";
      state = processor_accepted 3000;
      completed = false;
    },
    stripe (record {
      checkout_session_id = "s1";
      session_state = open_;
      payment_state = unpaid;
      payment_intent_id = "p1";
      transfer_group = "g1";
      expiry = 90_000;
    }),
  );
  create_charge = λ m. ok tt;
}

abbrev times : RequestTimes Millis
times = record {
  at_request = 1000;
  at_order = 1000;
  at_lines = 2000;
  at_charge = 3000;
  at_response = 4000;
}

abbrev body : ChargeReqDto String
body = record { order = charge_req; method = "card" }

execute-Follows_example : Follows world times buyer body (execute ascii world times buyer body)
execute-Follows_example = execute-Follows world times buyer body ascii
