-- ===== src/Payment/Charge/State.antt =====
-- How far a charge has come: `BuyerPayInState`, `Charge3partyModel` and `ChargeBuyerMetaModel` of
-- services/payment/src/model/charge.rs, and the state of a Stripe session, of
-- services/payment/src/model/external_processor.rs.
use e_commerce.Common.{ℕ, Bool, true, false, Option, none, some, List, map, String, if◌then◌else◌}
use e_commerce.Common.Chrono.{Chrono}
use e_commerce.Order.Line.Payment.{OrderLinePaidUpdateDto}
use e_commerce.Payment.Charge.Line.{ChargeLineBuyerModel}

-- services/payment/src/api/web/dto.rs
pub data ChargeStatusDto : Type 0 where
  initialized psp_processing psp_timed_out internal_syncing : ChargeStatusDto
  psp_refused session_expired completed unknown_psp : ChargeStatusDto

pub record ChargeRefreshRespDto (T : Type 0) : Type 0 where
  pub status : ChargeStatusDto
  pub order_id : String
  pub create_time : T

pub data StripeSessionStatusModel : Type 0 where
  complete expired open_ : StripeSessionStatusModel

pub data StripeCheckoutPaymentStatusModel : Type 0 where
  no_payment_required paid unpaid : StripeCheckoutPaymentStatusModel

pub record Charge3partyStripeModel (T : Type 0) : Type 0 where
  pub checkout_session_id : String
  pub session_state : StripeSessionStatusModel
  pub payment_state : StripeCheckoutPaymentStatusModel
  pub payment_intent_id : String
  pub transfer_group : String
  pub expiry : T

pub data Charge3partyModel (T : Type 0) : Type 0 where
  unknown_3party : Charge3partyModel T
  stripe : Charge3partyStripeModel T → Charge3partyModel T

pub data BuyerPayInState (T : Type 0) : Type 0 where
  not_started : BuyerPayInState T
  processor_accepted processor_completed order_app_synced : T → BuyerPayInState T

pub record ChargeBuyerMetaModel (T : Type 0) : Type 0 where
  pub owner : ℕ
  pub create_time : T
  pub oid : String
  pub state : BuyerPayInState T
  pub method : Charge3partyModel T

-- `OrderPaymentUpdateDto` of services/common/rust/src/api/rpc/dto.rs
pub record OrderPaymentUpdateDto : Type 0 where
  pub oid : String
  pub charge_time : String
  pub lines : List OrderLinePaidUpdateDto

-- `StripeCheckoutPaymentStatusModel::status_dto` and `is_paid`
unfoldable pub payment_status : StripeCheckoutPaymentStatusModel → ChargeStatusDto
payment_status unpaid = psp_refused
payment_status _ = internal_syncing

unfoldable pub is_paid : StripeCheckoutPaymentStatusModel → Bool
is_paid unpaid = false
is_paid _ = true

-- `StripeSessionStatusModel::status_dto`
unfoldable pub session_status :
    StripeSessionStatusModel → StripeCheckoutPaymentStatusModel → ChargeStatusDto
session_status open_ p = psp_processing
session_status expired p = session_expired
session_status complete p = payment_status p

-- `StripeSessionStatusModel::is_done` and `is_expired`
abbrev pub is_done : StripeSessionStatusModel → Bool
is_done complete = true
is_done _ = false

abbrev pub is_expired : StripeSessionStatusModel → Bool
is_expired expired = true
is_expired _ = false

-- `BuyerPayInState::create_time`, `completed`
abbrev pub state_time : {T : Type 0} → BuyerPayInState T → Option T
state_time not_started = none
state_time (processor_accepted t) = some t
state_time (processor_completed t) = some t
state_time (order_app_synced t) = some t

abbrev pub is_completed : {T : Type 0} → BuyerPayInState T → Bool
is_completed (order_app_synced t) = true
is_completed _ = false

module _ {T : Type 0} where
  -- `Charge3partyStripeModel::pay_in_comfirmed`
  unfoldable pub stripe_confirmed : Charge3partyStripeModel T → Option Bool
  stripe_confirmed m =
      if is_done m.session_state
      then some (is_paid m.payment_state)
      else if is_expired m.session_state
      then some false
      else none

  -- `Charge3partyModel::pay_in_comfirmed` and `status_dto`
  unfoldable pub pay_in_confirmed : Charge3partyModel T → Option Bool
  pay_in_confirmed unknown_3party = some false
  pay_in_confirmed (stripe m) = stripe_confirmed m

  unfoldable pub method_status : Charge3partyModel T → ChargeStatusDto
  method_status unknown_3party = unknown_psp
  method_status (stripe m) = session_status m.session_state m.payment_state

  -- `BuyerPayInState::status_dto`, at the time `now` of the clock
  unfoldable pub status_dto : BuyerPayInState T → Charge3partyModel T → T → ChargeStatusDto × T
  status_dto (order_app_synced t) mthd now = (completed, t)
  status_dto (processor_completed t) mthd now = (method_status mthd, t)
  status_dto (processor_accepted t) mthd now = (method_status mthd, now)
  status_dto not_started mthd now = (initialized, now)

  -- `From<&ChargeBuyerMetaModel> for ChargeRefreshRespDto`
  unfoldable pub refresh_resp : ChargeBuyerMetaModel T → T → ChargeRefreshRespDto T
  refresh_resp m now =
      let arg = status_dto m.state m.method now in
      record { order_id = m.oid; create_time = arg.1; status = arg.0 }

  -- `ChargeBuyerMetaModel::update_progress` and `update_3party`
  unfoldable pub update_progress :
      BuyerPayInState T → ChargeBuyerMetaModel T → ChargeBuyerMetaModel T
  update_progress new_state m = if is_completed m.state then m else record m { state = new_state }

  unfoldable pub update_3party :
      Charge3partyModel T → ChargeBuyerMetaModel T → ChargeBuyerMetaModel T
  update_3party value m = record m { method = value }

-- `From<ChargeLineBuyerModel> for OrderLinePaidUpdateDto`
abbrev pub paid_update_line : {D : Type 0} → ChargeLineBuyerModel D → OrderLinePaidUpdateDto
paid_update_line l = record {
  seller_id = l.pid.store_id;
  product_id = l.pid.product_id;
  attr_set_seq = l.attr_set_seq;
  qty = l.amount_orig.qty;
}

abbrev pub create_charge_seconds_interval : ℕ
create_charge_seconds_interval = 5

module _ {T : Type 0} ⦃c : Chrono T⦄ where
  -- `From<(String, u32)>`
  unfoldable pub new_meta : String → ℕ → T → ChargeBuyerMetaModel T
  new_meta oid owner now = record {
    owner = owner;
    create_time = c.trunc_to now create_charge_seconds_interval;
    oid = oid;
    state = not_started;
    method = unknown_3party;
  }

  -- `ChargeBuyerMetaModel::pay_update_dto`
  unfoldable pub pay_update_dto :
      {D : Type 0} → ChargeBuyerMetaModel T → List (ChargeLineBuyerModel D) → OrderPaymentUpdateDto
  pay_update_dto m chg_lines = record {
    oid = m.oid;
    charge_time = c.to_rfc3339 m.create_time;
    lines = map paid_update_line chg_lines;
  }

  -- The charge that `ChargeCreateUseCase::try_execute_processor` stores: the processor has accepted
  -- it at `t1`.
  unfoldable pub started : String → ℕ → T → T → Charge3partyModel T → ChargeBuyerMetaModel T
  started oid owner t0 t1 method_m =
      update_3party method_m (update_progress (processor_accepted t1) (new_meta oid owner t0))
