-- ===== src/Payment/Charge/Request.antt =====
-- How a buyer asks for a charge: `ChargeCreateUseCase` of
-- services/payment/src/usecase/create_charge.rs.
pub mod Steps
pub mod Access
pub mod Trace
use e_commerce.Common.{
  ℕ, suc, ◌/◌, ◌%◌, ◌^◌, Bool, true, false, ◌&&◌, ◌||◌, not, Option, none, some, List, [], ◌∷◌,
  ◌++◌, String, length, ltb, ◌==◌, if◌then◌else◌, str_eq,
}
use e_commerce.Common.Chrono.{Chrono}
use e_commerce.Common.Outcome.{Outcome, returned, panicked, ◌>>=◌, Result, ok, err}
use e_commerce.Common.Text.{Texts, hex_text}
use e_commerce.Contact.Billing.{BillingDto, BillingModel, BillingErrorDto, billing_try_from}
use e_commerce.Payment.Auth.{
  AppAuthedClaim, can_create_charge, num_charges_per_order, contain_permission, quota_limit,
}
use e_commerce.Common.Decimal.{Decimal}
use e_commerce.Payment.OrderReplica.{
  OrderLinePayDto, OrderCurrencySnapshotDto, OrderModelError, OrderLineModelSet,
}
use e_commerce.Payment.OrderReplica as OrderReplica
use e_commerce.Payment.Charge.Create.{
  ChargeReqOrderDto, ChargeRespErrorDto, ChargeBuyerModel, PaymentMethodErrorReason, default_error,
  try_from,
}
use e_commerce.Payment.Charge.State.{
  BuyerPayInState, Charge3partyModel, state_time, update_progress, update_3party,
}

-- `OrderReplicaPaymentDto` of services/common/rust/src/api/rpc/dto.rs
pub record OrderReplicaPaymentDto : Type 0 where
  pub oid : String
  pub usr_id : ℕ
  pub lines : List OrderLinePayDto
  pub currency : OrderCurrencySnapshotDto
  pub billing : BillingDto

-- services/payment/src/api/web/dto.rs, with a method of payment as a value of `M`
pub record ChargeReqDto (M : Type 0) : Type 0 where
  pub order : ChargeReqOrderDto
  pub method : M

pub record ChargeCreateRespDto (T R : Type 0) : Type 0 where
  pub id : String
  pub method : R
  pub create_time : T

-- services/payment/src/adapter/processor/mod.rs, with the answer of a method as a value of `R`
pub record AppProcessorPayInResult (T R : Type 0) : Type 0 where
  pub charge_id : List ℕ
  pub method : R
  pub state : BuyerPayInState T
  pub completed : Bool

pub data ChargeCreateUcError (E : Type 0) : Type 0 where
  order_owner_mismatch order_not_exist : ChargeCreateUcError E
  lock_cache_error load_order_conflict : ChargeCreateUcError E
  client_bad_request quota_exceed_limit : ChargeRespErrorDto → ChargeCreateUcError E
  load_order_internal_error data_store_error : E → ChargeCreateUcError E
  load_order_byte_corruption : String → ChargeCreateUcError E
  rpc_billing_parse_error : BillingErrorDto → ChargeCreateUcError E
  rpc_oline_parse_error : List OrderModelError → ChargeCreateUcError E
  external_processor_error : PaymentMethodErrorReason → ChargeCreateUcError E
  permission_denied : ℕ → ChargeCreateUcError E

-- What the use case calls: the repository, the cache of locks, the order service behind a message
-- broker, and the processor of payments.
pub record RequestContext (T D E M R : Type 0) : Type 0 where
  pub fetch_charge_ids : String → Result E (Option (ℕ × List T))
  pub get_unpaid_olines : ℕ → String → Result E (Option (OrderLineModelSet T D))
  pub lock_acquire : ℕ → String → Result (Unit {0}) Bool
  pub lock_release : ℕ → String → Result (Unit {0}) (Unit {0})
  pub acquire : Result E (Unit {0})
  pub send_and_receive : ℕ → T → String → Result E String
  pub parse_reply : String → Result String OrderReplicaPaymentDto
  pub create_order : OrderLineModelSet T D → BillingModel → Result E (Unit {0})
  pub pay_in_start :
      ChargeBuyerModel T D
      → M
      → Result PaymentMethodErrorReason (AppProcessorPayInResult T R × Charge3partyModel T)
  pub create_charge : ChargeBuyerModel T D → Result E (Unit {0})

-- The readings of the clock, at the places where the use case takes one.
pub record RequestTimes (T : Type 0) : Type 0 where
  pub at_request : T
  pub at_order : T
  pub at_lines : T
  pub at_charge : T
  pub at_response : T

-- What the use case does to the world, in its order: an order is asked for under a lock and saved,
-- a payment is started, and the charge is saved.
pub data Action (T D : Type 0) : Type 0 where
  lock_taken lock_released : Action T D
  order_asked : String → Action T D
  order_saved : OrderLineModelSet T D → Action T D
  payment_started charge_saved : ChargeBuyerModel T D → Action T D

-- A part of the use case: what it has done, and its result.
abbrev pub Done : Type 0 → Type 0 → Type 0 → Type 0 → Type 0
Done T D E A = List (Action T D) × Result (ChargeCreateUcError E) A

-- `unwrap_or`
abbrev pub or_else : {A : Type 0} → A → Option A → A
or_else a none = a
or_else a (some b) = b

module _ {T R : Type 0} where
  -- `From<AppProcessorPayInResult> for ChargeCreateRespDto`, at the time `now` of the clock
  unfoldable pub create_resp : T → AppProcessorPayInResult T R → ChargeCreateRespDto T R
  create_resp now value = record {
    id = hex_text value.charge_id;
    method = value.method;
    create_time = or_else now (state_time value.state);
  }

module _ {T E : Type 0} where
  abbrev pub check_quota : AppAuthedClaim → ℕ × List T → Result (ChargeCreateUcError E) (Unit {0})
  check_quota claim (saved_usr_id, ctimes) =
      let limit = quota_limit claim num_charges_per_order in
      let actual_num_charges = length ctimes % 2 ^ 32 in
      if not (saved_usr_id == claim.profile)
      then err (permission_denied claim.profile)
      else if ltb limit actual_num_charges
      then err (
          quota_exceed_limit (record default_error {
            num_charges_exceed =
                some (record { max_ = limit % 2 ^ 16; min_ = 0; given = actual_num_charges });
          }))
      else ok tt

  abbrev pub with_ids :
      AppAuthedClaim → Result E (Option (ℕ × List T)) → Result (ChargeCreateUcError E) (Unit {0})
  with_ids claim (err e) = err (data_store_error e)
  with_ids claim (ok ids) = check_quota claim (or_else (claim.profile, []) ids)

module _ {E : Type 0} where
  abbrev pub parsed :
      Result String OrderReplicaPaymentDto → Result (ChargeCreateUcError E) OrderReplicaPaymentDto
  parsed (err s) = err (load_order_byte_corruption s)
  parsed (ok d) = ok d

  -- `release(..).await?`, then the result of the request
  abbrev pub released :
      {A : Type 0}
      → Result (Unit {0}) (Unit {0})
      → Result (ChargeCreateUcError E) A
      → Result (ChargeCreateUcError E) A
  released (err e) out = err lock_cache_error
  released (ok u) out = out

module _ {T D E : Type 0} where
  abbrev pub owner_checked :
      ℕ
      → String
      → OrderLineModelSet T D
      → Result E (Unit {0})
      → Result (ChargeCreateUcError E) (OrderLineModelSet T D)
  owner_checked usr_id oid olines (err e) = err (data_store_error e)
  owner_checked usr_id oid olines (ok u) =
      if not (str_eq olines.id oid) || not (olines.buyer_id == usr_id)
      then err order_owner_mismatch
      else ok olines

  -- what has been done, then what follows a result that is no error
  abbrev pub then_do :
      {A B : Type 0} → Done T D E A → (A → Outcome (Done T D E B)) → Outcome (Done T D E B)
  then_do (log, err e) f = returned (log, err e)
  then_do (log, ok a) f = f a >>= λ r. returned (log ++ r.0, r.1)

module _ {T R : Type 0} where
  -- the charge as the processor has it
  abbrev pub accepted_charge :
      {D : Type 0}
      → ChargeBuyerModel T D
      → AppProcessorPayInResult T R
      → Charge3partyModel T
      → ChargeBuyerModel T D
  accepted_charge charge result method_m = record charge {
    meta = update_3party method_m (update_progress result.state charge.meta);
  }

  abbrev pub respond :
      {E : Type 0}
      → T
      → AppProcessorPayInResult T R
      → Result E (Unit {0})
      → Result (ChargeCreateUcError E) (ChargeCreateRespDto T R)
  respond now result (err e) = err (data_store_error e)
  respond now result (ok u) = ok (create_resp now result)
