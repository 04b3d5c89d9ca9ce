-- ===== src/Payment/Charge/Refresh/Steps.antt =====
-- What one refresh does to a charge, whatever the processor, the order service and the repository
-- answer: services/payment/src/usecase/refresh_charge_status.rs.
use mathlib.Core.Path.{subst}
use e_commerce.Common.{
  ◌≡◌, refl, sym, ap, ◌∙◌, ◌⊎◌, inl, inr, Bool, true, false, not, ◌&&◌, Option, none, some, arith,
  if◌then◌else◌, Bool-cases,
}
use e_commerce.Common.Chrono.{Chrono}
use e_commerce.Common.Outcome.{Result, ok, err}
use e_commerce.Payment.Charge.State.{
  processor_completed, order_app_synced, ChargeBuyerMetaModel, Charge3partyModel, is_completed,
  pay_in_confirmed, update_progress, update_3party,
}
use e_commerce.Payment.Charge.Refresh.{
  RefreshContext, Readings, Synced, refresh_3pty_processor, sync_order_app, confirmed_by,
  processor_answer, with_confirmed, proceed, save, refresh_meta, with_processor,
}
use e_commerce.Payment.Charge.Refresh.Later.{
  IsConsistent, IsLater-refl, Advances, later-AdvancesTo, reported-IsLater, reported-open,
  reported-method, update_progress-IsLater, update_progress-method,
}
use e_commerce.Payment.Charge.Refresh.Sync.{Syncs, sync_order_app-Syncs}

module _ {T D E : Type 0} ⦃c : Chrono T⦄ where
  save-Advances :
      (ctx : RefreshContext T D E) (now : Readings T) (m : ChargeBuyerMetaModel T) (s : Synced T E)
      → is_completed m.state ≡ false
      → pay_in_confirmed m.method ≡ some true
      → Syncs m now.at_sync s
      → Advances m (save ctx now s)
  unfolding Advances
  save-Advances ctx now m s open_ paid (inl e) =
      (rw e (IsLater-refl m), inr (rw e paid), inl open_, inr (rw e paid))
  save-Advances ctx now m s open_ paid (inr e) =
      let same = ap (λ (x : ChargeBuyerMetaModel T). x.method) e ∙ update_progress-method m _ in
      (
        rw e (update_progress-IsLater m (order_app_synced now.at_sync) (omega arith)),
        inr (ap pay_in_confirmed same ∙ paid),
        inl open_,
        inr (ap pay_in_confirmed same ∙ paid),
      )

  pub proceed-open :
      (ctx : RefreshContext T D E) (now : Readings T) (m : ChargeBuyerMetaModel T)
      → is_completed m.state ≡ false
      → proceed ctx now m true ≡ save ctx now (sync_order_app ctx m now.at_sync)
  unfolding proceed
  proceed-open ctx now m e =
      ap
        (λ (b : Bool). save ctx now (
          if true && not b
          then sync_order_app ctx m now.at_sync
          else record { meta = m; message = none; result = ok tt }))
        e

  -- The same of what follows the answer of the processor, on a charge that may go on only if the
  -- payment is confirmed.
  proceed-Advances :
      (ctx : RefreshContext T D E) (now : Readings T) (m : ChargeBuyerMetaModel T) (b : Bool)
      → IsConsistent m
      → (b ≡ false) ⊎ (pay_in_confirmed m.method ≡ some true)
      → Advances m (proceed ctx now m b)
  unfolding Advances proceed
  proceed-Advances ctx now m false is h = (IsLater-refl m, is, inr (refl, refl), inl refl)
  proceed-Advances ctx now m true is (inl h) = ground arith
  proceed-Advances ctx now m true is (inr h) = elim (Bool-cases (is_completed m.state)) [
    | inl e ↦ rw e (IsLater-refl m, is, inr (refl, refl), inl refl)
    | inr e ↦ subst (Advances m) (sym (proceed-open ctx now m e)) (
        save-Advances ctx now m (sync_order_app ctx m now.at_sync) e h
          (sync_order_app-Syncs ctx m now.at_sync))
  ]

  -- The charge after the processor has answered.
  answered :
      (ctx : RefreshContext T D E) (now : Readings T) (m : ChargeBuyerMetaModel T)
      (mthd : Charge3partyModel T) (o : Option Bool)
      → is_completed m.state ≡ false
      → pay_in_confirmed mthd ≡ o
      → let r = confirmed_by m now.at_processor mthd o in Advances m (proceed ctx now r.0 r.1)
  unfolding Advances
  answered ctx now m mthd none open_ e = proceed-Advances ctx now m false (inl open_) (inl refl)
  answered ctx now m mthd (some b) open_ e =
      let t = now.at_processor in
      let m' = update_3party mthd (update_progress (processor_completed t) m) in
      let r = proceed ctx now m' b in
      later-AdvancesTo m m' r.sent r.written (reported-IsLater m mthd t) open_
        (proceed-Advances ctx now m' b (inl (reported-open m mthd t open_)) (may_proceed b e))
    where
      may_proceed :
          (b : Bool)
          → pay_in_confirmed mthd ≡ some b
          → (b ≡ false)
            ⊎ (pay_in_confirmed
                  (update_3party mthd
                    (update_progress (processor_completed now.at_processor) m)).method
                ≡ some true)
      may_proceed false e = inl refl
      may_proceed true e = inr (ap pay_in_confirmed (reported-method _ mthd) ∙ e)

  processor_answer-Advances :
      (ctx : RefreshContext T D E) (now : Readings T) (m : ChargeBuyerMetaModel T)
      (r : Result E (Charge3partyModel T))
      → is_completed m.state ≡ false
      → Advances m (with_processor ctx now (processor_answer m now.at_processor r))
  unfolding Advances
  processor_answer-Advances ctx now m (err e) open_ = refl
  processor_answer-Advances ctx now m (ok mthd) open_ =
      answered ctx now m mthd (pay_in_confirmed mthd) open_ refl

  with_confirmed-Advances :
      (ctx : RefreshContext T D E) (now : Readings T) (m : ChargeBuyerMetaModel T) (o : Option Bool)
      → IsConsistent m
      → pay_in_confirmed m.method ≡ o
      → Advances m (with_confirmed ctx now m o)
  unfolding refresh_3pty_processor
  with_confirmed-Advances ctx now m (some false) is e =
      proceed-Advances ctx now m false is (inl refl)
  with_confirmed-Advances ctx now m (some true) is e = proceed-Advances ctx now m true is (inr e)
  with_confirmed-Advances ctx now m none (inl open_) e =
      processor_answer-Advances ctx now m (ctx.pay_in_progress m) open_
  with_confirmed-Advances ctx now m none (inr h) e = ground (arith, e, h)

  -- A refresh of a charge that the order service knows of only if the processor has confirmed its
  -- payment, whatever is answered: if it writes the charge, it is the same charge, no less far, and
  -- again consistent in this way; a charge that the order service knows of is written as it was,
  -- without a message; and a message is sent only if the processor has confirmed the payment.
  pub refresh_meta-Advances :
      (ctx : RefreshContext T D E) (now : Readings T) (m : ChargeBuyerMetaModel T)
      → IsConsistent m
      → Advances m (refresh_meta ctx now m)
  unfolding refresh_meta
  refresh_meta-Advances ctx now m is =
      with_confirmed-Advances ctx now m (pay_in_confirmed m.method) is refl
