-- ===== src/Payment/Charge/Refresh.antt =====
-- How the buyer refreshes the state of a charge: `ChargeStatusRefreshUseCase` of
-- services/payment/src/usecase/refresh_charge_status.rs, and `try_parse_charge_id` of
-- services/payment/src/usecase/mod.rs.
pub mod Later
pub mod Sync
pub mod Steps
pub mod Life
pub mod Liveness
use e_commerce.Common.{
  ℕ, Bool, true, false, not, ◌&&◌, ◌||◌, Option, none, some, List, String, if◌then◌else◌, ◌==◌,
  is_empty,
}
use e_commerce.Common.Chrono.{Chrono}
use e_commerce.Common.Outcome.{Outcome, returned, panicked, ◌>>=◌, Result, ok, err, ◌>>?◌}
use e_commerce.Order.Line.Payment.{OrderLinePayUpdateErrorDto}
use e_commerce.Order.Price.{AppErrorCode, data_corruption}
use e_commerce.Payment.Charge.Line.{ChargeLineBuyerModel}
use e_commerce.Payment.Charge.Token.{Calendar, token_of, decode}
use e_commerce.Payment.Charge.State.{
  ChargeBuyerMetaModel, Charge3partyModel, ChargeRefreshRespDto, OrderPaymentUpdateDto,
  processor_completed, order_app_synced, is_completed, pay_in_confirmed, update_progress,
  update_3party, refresh_resp, pay_update_dto,
}

-- services/common/rust/src/api/rpc/dto.rs
pub record OrderPaymentUpdateErrorDto : Type 0 where
  pub oid : String
  pub charge_time : Option String
  pub lines : List OrderLinePayUpdateErrorDto

module _ (T E : Type 0) where
  pub data ChargeRefreshUcError : Type 0 where
    owner_mismatch : ChargeRefreshUcError
    permission_denied : ℕ → ChargeRefreshUcError
    charge_not_exist : ℕ → T → ChargeRefreshUcError
    data_store rpc_context external_processor : E → ChargeRefreshUcError
    rpc_content_serialisation : String → ChargeRefreshUcError
    charge_id_decode : AppErrorCode → ChargeRefreshUcError
    rpc_update_order : OrderPaymentUpdateErrorDto → ChargeRefreshUcError

-- What the use case calls: the repository, the processor of payments, and the order service behind
-- a message broker, whose reply is parsed by a library.
pub record RefreshContext (T D E : Type 0) : Type 0 where
  pub fetch_charge_meta : ℕ → T → Result E (Option (ChargeBuyerMetaModel T))
  pub fetch_all_charge_lines : ℕ → T → Result E (List (ChargeLineBuyerModel D))
  pub update_charge_progress : ChargeBuyerMetaModel T → Result E (Unit {0})
  pub pay_in_progress : ChargeBuyerMetaModel T → Result E (Charge3partyModel T)
  pub acquire : Result E (Unit {0})
  pub send_and_receive : ℕ → T → OrderPaymentUpdateDto → Result E String
  pub parse_reply : String → Result String OrderPaymentUpdateErrorDto

-- The readings of the clock, at the places where the use case takes one.
pub record Readings (T : Type 0) : Type 0 where
  pub at_processor : T
  pub at_sync : T
  pub at_reply : T

-- A use case has a result, and acts on the world: a message may be sent to the order service, and
-- a charge written to the repository.
pub record Refreshed (T E : Type 0) : Type 0 where
  pub reply : Result (ChargeRefreshUcError T E) (ChargeRefreshRespDto T)
  pub sent : Option OrderPaymentUpdateDto
  pub written : Option (ChargeBuyerMetaModel T)

-- The charge after the order service was told, the message, and the result.
pub record Synced (T E : Type 0) : Type 0 where
  pub meta : ChargeBuyerMetaModel T
  pub message : Option OrderPaymentUpdateDto
  pub result : Result (ChargeRefreshUcError T E) (Unit {0})

module _ {T : Type 0} ⦃k : Calendar T⦄ where
  abbrev pub decoded : Result String (ℕ × T) → Result AppErrorCode (ℕ × T)
  decoded (ok r) = ok r
  decoded (err e) = err data_corruption

  abbrev pub with_token : Result AppErrorCode (List ℕ) → Outcome (Result AppErrorCode (ℕ × T))
  with_token (err e) = returned (err e)
  with_token (ok token) = decode token >>= λ r. returned (decoded r)

  abbrev pub with_octets : Result AppErrorCode (List ℕ) → Outcome (Result AppErrorCode (ℕ × T))
  with_octets (err e) = returned (err e)
  with_octets (ok octets) = with_token (token_of octets)

  -- `try_parse_charge_id`, given what `hex_to_octet` makes of the text
  unfoldable pub try_parse_charge_id :
      Result AppErrorCode (List ℕ) → Outcome (Result AppErrorCode (ℕ × T))
  try_parse_charge_id id_octets = with_octets id_octets

module _ {T : Type 0} where
  abbrev pub confirmed_by :
      ChargeBuyerMetaModel T → T → Charge3partyModel T → Option Bool → ChargeBuyerMetaModel T × Bool
  confirmed_by meta now mthd none = (meta, false)
  confirmed_by meta now mthd (some confirmed) =
      (update_3party mthd (update_progress (processor_completed now) meta), confirmed)

module _ {T E : Type 0} where
  abbrev pub processor_answer :
      ChargeBuyerMetaModel T
      → T
      → Result E (Charge3partyModel T)
      → Result (ChargeRefreshUcError T E) (ChargeBuyerMetaModel T × Bool)
  processor_answer meta now (err e) = err (external_processor e)
  processor_answer meta now (ok mthd) = ok (confirmed_by meta now mthd (pay_in_confirmed mthd))

  abbrev pub unsynced :
      ChargeBuyerMetaModel T → Option OrderPaymentUpdateDto → ChargeRefreshUcError T E → Synced T E
  unsynced meta message e = record { meta = meta; message = message; result = err e }

  abbrev pub with_detail :
      ChargeBuyerMetaModel T → T → OrderPaymentUpdateDto → OrderPaymentUpdateErrorDto → Synced T E
  with_detail meta now message detail = elim detail.charge_time [
    | some t ↦ unsynced meta (some message) (rpc_update_order detail)
    | none ↦
        if is_empty detail.lines
        then (record {
          meta = update_progress (order_app_synced now) meta;
          message = some message;
          result = ok tt;
        })
        else unsynced meta (some message) (rpc_update_order detail)
  ]

  abbrev pub refused : ChargeRefreshUcError T E → Refreshed T E
  refused e = record { reply = err e; sent = none; written = none }

  abbrev pub with_parsed :
      ChargeBuyerMetaModel T
      → T
      → OrderPaymentUpdateDto
      → Result String OrderPaymentUpdateErrorDto
      → Synced T E
  with_parsed meta now message (err s) = unsynced meta (some message) (rpc_content_serialisation s)
  with_parsed meta now message (ok detail) = with_detail meta now message detail

  -- the reply, given how the write and the synchronisation went
  abbrev pub reply_of :
      Synced T E
      → T
      → Result E (Unit {0})
      → Result (ChargeRefreshUcError T E) (Unit {0})
      → Result (ChargeRefreshUcError T E) (ChargeRefreshRespDto T)
  reply_of s now (err e) r = err (data_store e)
  reply_of s now (ok u) (err e) = err e
  reply_of s now (ok u) (ok u') = ok (refresh_resp s.meta now)

module _ {T D E : Type 0} ⦃c : Chrono T⦄ where
  -- `refresh_3pty_processor`: the charge afterwards, and whether to go on
  unfoldable pub refresh_3pty_processor :
      RefreshContext T D E
      → ChargeBuyerMetaModel T
      → T
      → Result (ChargeRefreshUcError T E) (ChargeBuyerMetaModel T × Bool)
  refresh_3pty_processor ctx meta now = processor_answer meta now (ctx.pay_in_progress meta)

  abbrev pub with_reply :
      RefreshContext T D E
      → ChargeBuyerMetaModel T
      → T
      → OrderPaymentUpdateDto
      → Result E String
      → Synced T E
  with_reply ctx meta now message (err e) = unsynced meta (some message) (rpc_context e)
  with_reply ctx meta now message (ok reply) = with_parsed meta now message (ctx.parse_reply reply)

  abbrev pub with_charge_lines :
      RefreshContext T D E
      → ChargeBuyerMetaModel T
      → T
      → Result E (List (ChargeLineBuyerModel D))
      → Synced T E
  with_charge_lines ctx meta now (err e) = unsynced meta none (data_store e)
  with_charge_lines ctx meta now (ok chg_lines) =
      let message = pay_update_dto meta chg_lines in
      with_reply ctx meta now message (ctx.send_and_receive meta.owner meta.create_time message)

  abbrev pub with_client :
      RefreshContext T D E → ChargeBuyerMetaModel T → T → Result E (Unit {0}) → Synced T E
  with_client ctx meta now (err e) = unsynced meta none (rpc_context e)
  with_client ctx meta now (ok u) =
      with_charge_lines ctx meta now (ctx.fetch_all_charge_lines meta.owner meta.create_time)

  -- `sync_order_app` with `rpc_build_charge_lines`
  unfoldable pub sync_order_app : RefreshContext T D E → ChargeBuyerMetaModel T → T → Synced T E
  sync_order_app ctx meta now = with_client ctx meta now ctx.acquire

  -- the end of `execute`: the charge is written in any case, then an error is returned
  abbrev pub save : RefreshContext T D E → Readings T → Synced T E → Refreshed T E
  save ctx now s = record {
    reply = reply_of s now.at_reply (ctx.update_charge_progress s.meta) s.result;
    sent = s.message;
    written = some s.meta;
  }

  -- the part of `execute` after the processor has answered
  unfoldable pub proceed :
      RefreshContext T D E → Readings T → ChargeBuyerMetaModel T → Bool → Refreshed T E
  proceed ctx now meta proceed_allowed = save ctx now (
      if proceed_allowed && not (is_completed meta.state)
      then sync_order_app ctx meta now.at_sync
      else record { meta = meta; message = none; result = ok tt })

  abbrev pub with_processor :
      RefreshContext T D E
      → Readings T
      → Result (ChargeRefreshUcError T E) (ChargeBuyerMetaModel T × Bool)
      → Refreshed T E
  with_processor ctx now (err e) = refused e
  with_processor ctx now (ok r) = proceed ctx now r.0 r.1

  -- the part of `execute` on the saved charge, whose payment the processor may have confirmed
  abbrev pub with_confirmed :
      RefreshContext T D E → Readings T → ChargeBuyerMetaModel T → Option Bool → Refreshed T E
  with_confirmed ctx now meta (some confirmed) = proceed ctx now meta confirmed
  with_confirmed ctx now meta none =
      with_processor ctx now (refresh_3pty_processor ctx meta now.at_processor)

  unfoldable pub refresh_meta :
      RefreshContext T D E → Readings T → ChargeBuyerMetaModel T → Refreshed T E
  refresh_meta ctx now meta = with_confirmed ctx now meta (pay_in_confirmed meta.method)

  abbrev pub with_meta :
      RefreshContext T D E
      → Readings T
      → ℕ
      → T
      → Result E (Option (ChargeBuyerMetaModel T))
      → Refreshed T E
  with_meta ctx now owner_id create_time (err e) = refused (data_store e)
  with_meta ctx now owner_id create_time (ok none) = refused (charge_not_exist owner_id create_time)
  with_meta ctx now owner_id create_time (ok (some meta)) = refresh_meta ctx now meta

  abbrev pub with_id :
      RefreshContext T D E → Readings T → ℕ → Result AppErrorCode (ℕ × T) → Refreshed T E
  with_id ctx now usr_id (err code) = refused (charge_id_decode code)
  with_id ctx now usr_id (ok (owner_id, create_time)) =
      if owner_id == usr_id
      then with_meta ctx now owner_id create_time (ctx.fetch_charge_meta owner_id create_time)
      else refused owner_mismatch

  -- `execute` for the user `usr_id`, with or without the permission to update, at the readings `now`
  -- of the clock
  unfoldable pub execute :
      ⦃k : Calendar T⦄
      → RefreshContext T D E
      → Readings T
      → ℕ
      → Bool
      → Result AppErrorCode (List ℕ)
      → Outcome (Refreshed T E)
  execute ctx now usr_id permitted id_octets =
      if permitted
      then (try_parse_charge_id id_octets >>= λ id. returned (with_id ctx now usr_id id))
      else returned (refused (permission_denied usr_id))
