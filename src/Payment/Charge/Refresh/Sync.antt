-- ===== src/Payment/Charge/Refresh/Sync.antt =====
-- What the message to the order service makes of a charge: `sync_order_app` of
-- services/payment/src/usecase/refresh_charge_status.rs.
use e_commerce.Common.{◌≡◌, refl, ◌⊎◌, inl, inr, String, List, is_empty, Bool-cases, Option-cases}
use e_commerce.Common.Chrono.{Chrono}
use e_commerce.Common.Outcome.{Result, ok, err}
use e_commerce.Payment.Charge.Line.{ChargeLineBuyerModel}
use e_commerce.Payment.Charge.State.{
  OrderPaymentUpdateDto, order_app_synced, ChargeBuyerMetaModel, update_progress, pay_update_dto,
}
use e_commerce.Payment.Charge.Refresh.{
  RefreshContext, Synced, OrderPaymentUpdateErrorDto, sync_order_app, with_detail, with_parsed,
  with_client, with_reply, with_charge_lines,
}

module _ {T : Type 0} where
  -- What a synchronisation makes of a charge.
  abbrev pub Syncs : {E : Type 0} → ChargeBuyerMetaModel T → T → Synced T E → Type 0
  Syncs m t s = (s.meta ≡ m) ⊎ (s.meta ≡ update_progress (order_app_synced t) m)

  with_detail-Syncs :
      (E : Type 0) (m : ChargeBuyerMetaModel T) (t : T) (msg : OrderPaymentUpdateDto)
      (detail : OrderPaymentUpdateErrorDto)
      → Syncs m t (with_detail {E = E} m t msg detail)
  with_detail-Syncs E m t msg detail = elim (Option-cases detail.charge_time) [
    | inr (x, e) ↦ rw e (inl refl)
    | inl e ↦ elim (Bool-cases (is_empty detail.lines)) [
      | inr e2 ↦ rw (e, e2) (inl refl)
      | inl e2 ↦ rw (e, e2) (inr refl)
    ]
  ]

  with_parsed-Syncs :
      (E : Type 0) (m : ChargeBuyerMetaModel T) (t : T) (msg : OrderPaymentUpdateDto)
      (r : Result String OrderPaymentUpdateErrorDto)
      → Syncs m t (with_parsed {E = E} m t msg r)
  with_parsed-Syncs E m t msg (err s) = inl refl
  with_parsed-Syncs E m t msg (ok detail) = with_detail-Syncs E m t msg detail

module _ {T D E : Type 0} ⦃c : Chrono T⦄ where
  with_reply-Syncs :
      (ctx : RefreshContext T D E) (m : ChargeBuyerMetaModel T) (t : T)
      (msg : OrderPaymentUpdateDto) (r : Result E String)
      → Syncs m t (with_reply ctx m t msg r)
  with_reply-Syncs ctx m t msg (err e) = inl refl
  with_reply-Syncs ctx m t msg (ok reply) = with_parsed-Syncs E m t msg (ctx.parse_reply reply)

  with_charge_lines-Syncs :
      (ctx : RefreshContext T D E) (m : ChargeBuyerMetaModel T) (t : T)
      (r : Result E (List (ChargeLineBuyerModel D)))
      → Syncs m t (with_charge_lines ctx m t r)
  with_charge_lines-Syncs ctx m t (err e) = inl refl
  with_charge_lines-Syncs ctx m t (ok ls) =
      let msg = pay_update_dto m ls in
      with_reply-Syncs ctx m t msg (ctx.send_and_receive m.owner m.create_time msg)

  with_client-Syncs :
      (ctx : RefreshContext T D E) (m : ChargeBuyerMetaModel T) (t : T) (r : Result E (Unit {0}))
      → Syncs m t (with_client ctx m t r)
  with_client-Syncs ctx m t (err e) = inl refl
  with_client-Syncs ctx m t (ok u) =
      with_charge_lines-Syncs ctx m t (ctx.fetch_all_charge_lines m.owner m.create_time)

  pub sync_order_app-Syncs :
      (ctx : RefreshContext T D E) (m : ChargeBuyerMetaModel T) (t : T)
      → Syncs m t (sync_order_app ctx m t)
  unfolding sync_order_app
  sync_order_app-Syncs ctx m t = with_client-Syncs ctx m t ctx.acquire
