-- ===== src/Payment/Charge/Request/Steps.antt =====
-- The steps of `ChargeCreateUseCase`, of services/payment/src/usecase/create_charge.rs: each gives
-- what it has done to the world, and its result.
use e_commerce.Common.{
  ℕ, Bool, true, false, Option, none, some, List, [], ◌∷◌, ◌++◌, String, if◌then◌else◌,
}
use e_commerce.Common.Chrono.{Chrono}
use e_commerce.Common.Outcome.{Outcome, returned, ◌>>=◌, Result, ok, err}
use e_commerce.Common.Text.{Texts}
use e_commerce.Contact.Billing.{BillingModel, BillingErrorDto, billing_try_from}
use e_commerce.Payment.Auth.{AppAuthedClaim, can_create_charge, contain_permission}
use e_commerce.Common.Decimal.{Decimal}
use e_commerce.Payment.OrderReplica.{
  OrderLinePayDto, OrderCurrencySnapshotDto, OrderModelError, OrderLineModelSet,
}
use e_commerce.Payment.OrderReplica as OrderReplica
use e_commerce.Payment.Charge.Create.{
  ChargeRespErrorDto, ChargeBuyerModel, PaymentMethodErrorReason, try_from,
}
use e_commerce.Payment.Charge.State.{Charge3partyModel}
use e_commerce.Payment.Charge.Request.{
  OrderReplicaPaymentDto, ChargeReqDto, ChargeCreateRespDto, AppProcessorPayInResult,
  ChargeCreateUcError, RequestContext, RequestTimes, Done, with_ids, parsed, released,
  owner_checked, then_do, accepted_charge, respond, client_bad_request, data_store_error,
  external_processor_error, load_order_conflict, load_order_internal_error, lock_cache_error,
  order_asked, order_saved, lock_taken, lock_released, payment_started, charge_saved,
  permission_denied, rpc_billing_parse_error, rpc_oline_parse_error,
}

module _ {T D E M R : Type 0} where
  unfoldable pub validate_access_control :
      RequestContext T D E M R → AppAuthedClaim → String → Result (ChargeCreateUcError E) (Unit {0})
  validate_access_control ctx claim oid =
      if contain_permission claim can_create_charge
      then with_ids claim (ctx.fetch_charge_ids oid)
      else err (permission_denied claim.profile)

  abbrev pub replied :
      RequestContext T D E M R
      → Result E String
      → Result (ChargeCreateUcError E) OrderReplicaPaymentDto
  replied ctx (err e) = err (load_order_internal_error e)
  replied ctx (ok message) = parsed (ctx.parse_reply message)

  -- the time of the message is truncated to 6 seconds
  abbrev pub ask_order :
      ⦃c : Chrono T⦄
      → RequestContext T D E M R
      → T
      → ℕ
      → String
      → Result E (Unit {0})
      → Done T D E OrderReplicaPaymentDto
  ask_order ctx now usr_id oid (err e) = ([], err (load_order_internal_error e))
  ask_order ⦃c⦄ ctx now usr_id oid (ok client) =
      (order_asked oid ∷ [], replied ctx (ctx.send_and_receive usr_id (c.trunc_to now 6) oid))

  abbrev pub with_lock :
      ⦃c : Chrono T⦄
      → RequestContext T D E M R
      → T
      → ℕ
      → String
      → Result (Unit {0}) Bool
      → Done T D E OrderReplicaPaymentDto
  with_lock ctx now usr_id oid (err e) = ([], err lock_cache_error)
  with_lock ctx now usr_id oid (ok false) = ([], err load_order_conflict)
  with_lock ctx now usr_id oid (ok true) =
      let out = ask_order ctx now usr_id oid ctx.acquire in
      (lock_taken ∷ out.0 ++ lock_released ∷ [], released (ctx.lock_release usr_id oid) out.1)

  -- `rpc_sync_order` with `_rpc_sync_order`
  unfoldable pub rpc_sync_order :
      ⦃c : Chrono T⦄ → RequestContext T D E M R → T → ℕ → String → Done T D E OrderReplicaPaymentDto
  rpc_sync_order ctx now usr_id oid = with_lock ctx now usr_id oid (ctx.lock_acquire usr_id oid)

  abbrev pub save_order :
      RequestContext T D E M R
      → ℕ
      → String
      → BillingModel
      → Result (List OrderModelError) (OrderLineModelSet T D)
      → Done T D E (OrderLineModelSet T D)
  save_order ctx usr_id oid billing (err es) = ([], err (rpc_oline_parse_error es))
  save_order ctx usr_id oid billing (ok olines) =
      (order_saved olines ∷ [], owner_checked usr_id oid olines (ctx.create_order olines billing))

  abbrev pub with_billing :
      ⦃c : Chrono T⦄ ⦃d : Decimal D⦄
      → RequestContext T D E M R
      → T
      → ℕ
      → String
      → OrderReplicaPaymentDto
      → Result BillingErrorDto BillingModel
      → Outcome (Done T D E (OrderLineModelSet T D))
  with_billing ctx now usr_id oid data_ (err e) = returned ([], err (rpc_billing_parse_error e))
  with_billing ctx now usr_id oid data_ (ok billing) =
      OrderReplica.try_from data_.oid data_.usr_id data_.lines data_.currency now >>= λ r.
      returned (save_order ctx usr_id oid billing r)

  unfoldable pub try_save_order :
      ⦃c : Chrono T⦄ ⦃d : Decimal D⦄
      → Texts
      → RequestContext T D E M R
      → T
      → ℕ
      → String
      → OrderReplicaPaymentDto
      → Outcome (Done T D E (OrderLineModelSet T D))
  try_save_order lib ctx now usr_id oid data_ =
      with_billing ctx now usr_id oid data_ (billing_try_from lib data_.billing)

  abbrev pub save_charge :
      RequestContext T D E M R
      → T
      → ChargeBuyerModel T D
      → Result PaymentMethodErrorReason (AppProcessorPayInResult T R × Charge3partyModel T)
      → Done T D E (ChargeCreateRespDto T R)
  save_charge ctx now charge (err reason) =
      (payment_started charge ∷ [], err (external_processor_error reason))
  save_charge ctx now charge (ok (result, method_m)) =
      let charge' = accepted_charge charge result method_m in
      (
        payment_started charge ∷ charge_saved charge' ∷ [],
        respond now result (ctx.create_charge charge'),
      )

  abbrev pub start_payment :
      RequestContext T D E M R
      → T
      → M
      → Result ChargeRespErrorDto (ChargeBuyerModel T D)
      → Done T D E (ChargeCreateRespDto T R)
  start_payment ctx now mthd (err e) = ([], err (client_bad_request e))
  start_payment ctx now mthd (ok charge) = save_charge ctx now charge (ctx.pay_in_start charge mthd)

  unfoldable pub try_execute_processor :
      ⦃c : Chrono T⦄ ⦃d : Decimal D⦄
      → RequestContext T D E M R
      → RequestTimes T
      → OrderLineModelSet T D
      → ChargeReqDto M
      → Done T D E (ChargeCreateRespDto T R)
  try_execute_processor ctx now saved_order reqbody =
      start_payment ctx now.at_response reqbody.method
        (try_from saved_order reqbody.order now.at_lines now.at_charge)

  abbrev pub with_unpaid :
      ⦃c : Chrono T⦄ ⦃d : Decimal D⦄
      → Texts
      → RequestContext T D E M R
      → RequestTimes T
      → ℕ
      → String
      → Result E (Option (OrderLineModelSet T D))
      → Outcome (Done T D E (OrderLineModelSet T D))
  with_unpaid lib ctx now usr_id oid (err e) = returned ([], err (data_store_error e))
  with_unpaid lib ctx now usr_id oid (ok (some v)) = returned ([], ok v)
  with_unpaid lib ctx now usr_id oid (ok none) =
      then_do (rpc_sync_order ctx now.at_request usr_id oid)
        (try_save_order lib ctx now.at_order usr_id oid)

  abbrev pub with_access :
      ⦃c : Chrono T⦄ ⦃d : Decimal D⦄
      → Texts
      → RequestContext T D E M R
      → RequestTimes T
      → ℕ
      → ChargeReqDto M
      → Result (ChargeCreateUcError E) (Unit {0})
      → Outcome (Done T D E (ChargeCreateRespDto T R))
  with_access lib ctx now usr_id req_body (err e) = returned ([], err e)
  with_access lib ctx now usr_id req_body (ok u) =
      with_unpaid lib ctx now usr_id req_body.order.id
        (ctx.get_unpaid_olines usr_id req_body.order.id)
      >>= λ r. then_do r (λ o. returned (try_execute_processor ctx now o req_body))

  unfoldable pub execute :
      ⦃c : Chrono T⦄ ⦃d : Decimal D⦄
      → Texts
      → RequestContext T D E M R
      → RequestTimes T
      → AppAuthedClaim
      → ChargeReqDto M
      → Outcome (Done T D E (ChargeCreateRespDto T R))
  execute lib ctx now claim req_body =
      with_access lib ctx now claim.profile req_body
        (validate_access_control ctx claim req_body.order.id)
