-- ===== src/Payment/Charge/Refresh/Liveness.antt =====
-- When a charge is done: `ChargeStatusRefreshUseCase::execute` of
-- services/payment/src/usecase/refresh_charge_status.rs, where every call succeeds.
use e_commerce.Common.{
  ℕ, ◌≡◌, ◌<◌, ◌^◌, refl, sym, ap, ◌∙◌, inl, inr, Bool, true, false, Option, none, some, String,
  List, [], length, ◌==◌, eqb_iff, Bool-cases, arith,
}
use e_commerce.Common.Chrono.{Chrono}
use e_commerce.Common.Outcome.{Outcome, returned, ◌>>=◌, Result, ok}
use e_commerce.Order.Price.{AppErrorCode}
use e_commerce.Payment.Charge.Line.{ChargeLineBuyerModel}
use e_commerce.Payment.Charge.Token.{Calendar, encode, token_of, decode}
use e_commerce.Payment.Charge.Token.RoundTrip.{IsCalendar, RoundTrips, encode-RoundTrips}
use e_commerce.Payment.Charge.State.{
  ChargeBuyerMetaModel, Charge3partyModel, OrderPaymentUpdateDto, completed, order_app_synced,
  is_completed, pay_in_confirmed, update_progress, update_3party, processor_completed,
  pay_update_dto, refresh_resp, status_dto,
}
use e_commerce.Payment.Charge.Refresh.{
  RefreshContext, Readings, Refreshed, Synced, try_parse_charge_id, refresh_3pty_processor,
  sync_order_app, save, refresh_meta, with_processor, with_id, execute, with_token, decoded,
  with_meta, reply_of, with_confirmed, confirmed_by, with_client, with_parsed, processor_answer,
  with_reply, with_charge_lines,
}
use e_commerce.Payment.Charge.Refresh.Later.{reported-open}
use e_commerce.Payment.Charge.Refresh.Steps.{proceed-open}

module _ {T : Type 0} where
  -- the charge once the processor has reported its payment, and once the order service knows of it
  abbrev pub reported : ChargeBuyerMetaModel T → Charge3partyModel T → T → ChargeBuyerMetaModel T
  reported m mthd t = update_3party mthd (update_progress (processor_completed t) m)

  abbrev pub synced :
      ChargeBuyerMetaModel T → Charge3partyModel T → Readings T → ChargeBuyerMetaModel T
  synced m mthd now =
      update_progress (order_app_synced now.at_sync) (reported m mthd now.at_processor)

  synced-state :
      (m : ChargeBuyerMetaModel T) (mthd : Charge3partyModel T) (now : Readings T)
      → is_completed m.state ≡ false
      → (synced m mthd now).state ≡ order_app_synced now.at_sync
  unfolding update_progress update_3party
  synced-state m mthd now e = rw e refl

  reported-message :
      {D : Type 0} ⦃c : Chrono T⦄ (m : ChargeBuyerMetaModel T) (mthd : Charge3partyModel T) (t : T)
      (ls : List (ChargeLineBuyerModel D))
      → pay_update_dto (reported m mthd t) ls ≡ pay_update_dto m ls
  unfolding update_progress update_3party pay_update_dto
  reported-message m mthd t ls = elim (Bool-cases (is_completed m.state)) [
    | inl e ↦ rw e refl
    | inr e ↦ rw e refl
  ]

  synced-resp :
      (m : ChargeBuyerMetaModel T) (mthd : Charge3partyModel T) (now : Readings T)
      → is_completed m.state ≡ false
      → refresh_resp (synced m mthd now) now.at_reply
        ≡ record { status = completed; order_id = m.oid; create_time = now.at_sync }
  unfolding update_progress update_3party refresh_resp status_dto
  synced-resp m mthd now e = rw e refl

module _ {T D E : Type 0} ⦃c : Chrono T⦄ where
  -- The order service can be reached and takes the payment of this charge, whatever is sent.
  pub record TakesPayment (ctx : RefreshContext T D E) (m : ChargeBuyerMetaModel T) : Type 0 where
    pub chg_lines : List (ChargeLineBuyerModel D)
    pub reply : String
    pub acquired : ctx.acquire ≡ ok tt
    pub loaded : ctx.fetch_all_charge_lines m.owner m.create_time ≡ ok chg_lines
    pub replied : ctx.send_and_receive m.owner m.create_time (pay_update_dto m chg_lines) ≡ ok reply
    pub accepted :
        ctx.parse_reply reply ≡ ok (record { oid = m.oid; charge_time = none; lines = [] })

  sync_order_app-done :
      (ctx : RefreshContext T D E) (m : ChargeBuyerMetaModel T) (t : T) (takes : TakesPayment ctx m)
      → sync_order_app ctx m t ≡ record {
        meta = update_progress (order_app_synced t) m;
        message = some (pay_update_dto m takes.chg_lines);
        result = ok tt;
      }
  unfolding sync_order_app
  sync_order_app-done ctx m t takes =
      let msg = pay_update_dto m takes.chg_lines in
      ap (with_client ctx m t) takes.acquired
      ∙ ap (with_charge_lines ctx m t) takes.loaded
      ∙ ap (with_reply ctx m t msg) takes.replied
      ∙ ap (with_parsed {E = E} m t msg) takes.accepted

  save-done :
      (ctx : RefreshContext T D E) (now : Readings T) (m : ChargeBuyerMetaModel T)
      (msg : OrderPaymentUpdateDto)
      → ctx.update_charge_progress m ≡ ok tt
      → save ctx now (record { meta = m; message = some msg; result = ok tt })
        ≡ record { reply = ok (refresh_resp m now.at_reply); sent = some msg; written = some m }
  save-done ctx now m msg stores =
      let s : Synced T E = record { meta = m; message = some msg; result = ok tt } in
      ap
        (λ (r : Result E (Unit {0})). record {
          reply = reply_of s now.at_reply r (ok tt);
          sent = some msg;
          written = some m;
        })
        stores

  refresh_meta-done :
      (ctx : RefreshContext T D E) (now : Readings T) (m : ChargeBuyerMetaModel T)
      (mthd : Charge3partyModel T)
      → is_completed m.state ≡ false
      → pay_in_confirmed m.method ≡ none
      → ctx.pay_in_progress m ≡ ok mthd
      → pay_in_confirmed mthd ≡ some true
      → (takes : TakesPayment ctx (reported m mthd now.at_processor))
      → refresh_meta ctx now m
        ≡ save ctx now (record {
          meta = synced m mthd now;
          message = some (pay_update_dto (reported m mthd now.at_processor) takes.chg_lines);
          result = ok tt;
        })
  unfolding refresh_meta refresh_3pty_processor
  refresh_meta-done ctx now m mthd unsynced pending answer paid takes =
      let m1 = reported m mthd now.at_processor in
      ap (with_confirmed ctx now m) pending
      ∙ ap
          (λ (r : Result E (Charge3partyModel T)).
            with_processor ctx now (processor_answer m now.at_processor r))
          answer
      ∙ ap
          (λ (o : Option Bool).
            with_processor ctx now (ok (confirmed_by m now.at_processor mthd o)))
          paid
      ∙ proceed-open ctx now m1 (reported-open m mthd now.at_processor unsynced)
      ∙ ap (save ctx now) (sync_order_app-done ctx m1 now.at_sync takes)

  -- A refresh that completes a charge: the buyer is told so, the order service is told of all its
  -- lines, and the charge is stored as such.
  pub Completes :
      ChargeBuyerMetaModel T → List (ChargeLineBuyerModel D) → T → Outcome (Refreshed T E) → Type 0
  Completes m chg_lines t r =
      (res : Refreshed T E) × (m' : ChargeBuyerMetaModel T) × (r ≡ returned res)
      × (res.reply ≡ ok (record { status = completed; order_id = m.oid; create_time = t }))
      × (res.sent ≡ some (pay_update_dto m chg_lines))
      × (res.written ≡ some m')
      × (m'.state ≡ order_app_synced t)

token_of-nine : (token : List ℕ) → length token ≡ 9 → token_of token ≡ ok token
unfolding token_of
token_of-nine token n = rw ((eqb_iff (length token) 9).1 n) refl

module _ {T : Type 0} ⦃k : Calendar T⦄ where
  try_parse-done :
      (token : List ℕ) (r : ℕ × T)
      → length token ≡ 9
      → decode token ≡ returned (ok r)
      → try_parse_charge_id (ok token) ≡ returned (ok r)
  unfolding try_parse_charge_id
  try_parse-done token r n dec =
      ap with_token (token_of-nine token n)
      ∙ ap (λ (o : Outcome (Result String (ℕ × T))). o >>= λ r. returned (decoded r)) dec

module _ {T D E : Type 0} ⦃c : Chrono T⦄ ⦃k : Calendar T⦄ where
  -- The owner of a charge, with the permission, refreshes it by its token, which was encoded under
  -- the conditions of the round trip. If the charge is stored and pending, the processor now
  -- confirms its payment, the order service can be reached and takes it, and the charge can be
  -- stored, then the reply is that it is completed, the order service is sent all lines of the
  -- charge, and the charge is stored as known to it.
  pub execute-Completes :
      IsCalendar T
      → (ctx : RefreshContext T D E) (now : Readings T) (m : ChargeBuyerMetaModel T)
        (mthd : Charge3partyModel T) (token : List ℕ)
      → m.owner < 2 ^ 32
      → (k.year_ce m.create_time).0 ≡ true
      → (k.year_ce m.create_time).1 < 2 ^ 14
      → k.nanosecond m.create_time ≡ 0
      → encode m.owner m.create_time ≡ returned token
      → ctx.fetch_charge_meta m.owner m.create_time ≡ ok (some m)
      → is_completed m.state ≡ false
      → pay_in_confirmed m.method ≡ none
      → ctx.pay_in_progress m ≡ ok mthd
      → pay_in_confirmed mthd ≡ some true
      → (takes : TakesPayment ctx (reported m mthd now.at_processor))
      → ctx.update_charge_progress (synced m mthd now) ≡ ok tt
      → Completes m takes.chg_lines now.at_sync (execute ctx now m.owner true (ok token))
  unfolding Completes execute RoundTrips
  execute-Completes cal ctx now m mthd token ho ce hy whole made saved unsynced pending answer paid
        takes stores =
      let (tk, e, n, dec) = encode-RoundTrips cal m.owner m.create_time ho ce hy whole in
      let same : tk ≡ token = ground (arith, e, made) in
      let parsed =
        try_parse-done token (m.owner, m.create_time) (rw (sym same) n) (rw (sym same) dec) in
      let done = refresh_meta-done ctx now m mthd unsynced pending answer paid takes in
      let own : (m.owner == m.owner) ≡ true = ground arith in
      (
        record {
          reply = ok (refresh_resp (synced m mthd now) now.at_reply);
          sent = some (pay_update_dto (reported m mthd now.at_processor) takes.chg_lines);
          written = some (synced m mthd now);
        },
        synced m mthd now,
        ap
              (λ (o : Outcome (Result AppErrorCode (ℕ × T))).
                o >>= λ id. returned (with_id ctx now m.owner id))
              parsed
            ∙ rw own (
                ap returned (
                  ap (with_meta ctx now m.owner m.create_time) saved
                  ∙ done
                  ∙ save-done ctx now (synced m mthd now) _ stores)),
        ap ok (synced-resp m mthd now unsynced),
        ap some (reported-message m mthd now.at_processor takes.chg_lines),
        refl,
        synced-state m mthd now unsynced,
      )
