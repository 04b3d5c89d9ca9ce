-- ===== src/Payment/Charge/Refresh/Later.antt =====
-- Later versions of a charge, as `update_progress` and `update_3party` of
-- services/payment/src/model/charge.rs make them.
use e_commerce.Common.{
  ℕ, ◌≤◌, ◌≡◌, refl, ◌∙◌, ◌⊎◌, inl, inr, true, false, Option, none, some, arith, Bool-cases,
}
use e_commerce.Payment.Charge.State.{
  OrderPaymentUpdateDto, BuyerPayInState, not_started, processor_accepted, processor_completed,
  order_app_synced, ChargeBuyerMetaModel, Charge3partyModel, is_completed, pay_in_confirmed,
  update_progress, update_3party,
}
use e_commerce.Payment.Charge.Refresh.{Refreshed}

-- how far a state is
abbrev pub rank : {T : Type 0} → BuyerPayInState T → ℕ
rank not_started = 0
rank (processor_accepted t) = 1
rank (processor_completed t) = 2
rank (order_app_synced t) = 3

module _ {T : Type 0} where
  -- The order service is told only of what the processor has confirmed.
  abbrev pub IsConsistent : ChargeBuyerMetaModel T → Type 0
  IsConsistent m = (is_completed m.state ≡ false) ⊎ (pay_in_confirmed m.method ≡ some true)

  -- A later version of a charge: it is the same charge, and no less far.
  pub record IsLater (m m' : ChargeBuyerMetaModel T) : Type 0 where
    pub same_owner : m'.owner ≡ m.owner
    pub same_time : m'.create_time ≡ m.create_time
    pub same_oid : m'.oid ≡ m.oid
    pub no_less : rank m.state ≤ rank m'.state

  pub IsLater-refl : (m : ChargeBuyerMetaModel T) → IsLater m m
  IsLater-refl m = record {
    same_owner = refl;
    same_time = refl;
    same_oid = refl;
    no_less = omega arith;
  }

  pub IsLater-trans : {a b d : ChargeBuyerMetaModel T} → IsLater a b → IsLater b d → IsLater a d
  IsLater-trans p q = record {
    same_owner = q.same_owner ∙ p.same_owner;
    same_time = q.same_time ∙ p.same_time;
    same_oid = q.same_oid ∙ p.same_oid;
    no_less = omega (arith, p.no_less, q.no_less);
  }

  rank-le : (s : BuyerPayInState T) → is_completed s ≡ false → rank s ≤ 2
  rank-le not_started h = omega arith
  rank-le (processor_accepted t) h = omega arith
  rank-le (processor_completed t) h = omega arith
  rank-le (order_app_synced t) h = ground arith

  pub update_progress-IsLater :
      (m : ChargeBuyerMetaModel T) (s : BuyerPayInState T)
      → 2 ≤ rank s
      → IsLater m (update_progress s m)
  unfolding update_progress
  update_progress-IsLater m s h = elim (Bool-cases (is_completed m.state)) [
    | inl e ↦ rw e (IsLater-refl m)
    | inr e ↦ rw e (record {
      same_owner = refl;
      same_time = refl;
      same_oid = refl;
      no_less = omega (arith, rank-le m.state e);
    })
  ]

  pub update_progress-method :
      (m : ChargeBuyerMetaModel T) (s : BuyerPayInState T) → (update_progress s m).method ≡ m.method
  unfolding update_progress
  update_progress-method m s = ground arith

  -- What a refresh does to a charge: it may write a later version of it, which is consistent; it
  -- leaves a charge as it is that the order service knows of, and sends no second message; it sends
  -- one only if the processor has confirmed the payment.
  abbrev pub AdvancesTo :
      ChargeBuyerMetaModel T
      → Option OrderPaymentUpdateDto
      → Option (ChargeBuyerMetaModel T)
      → Type 0
  AdvancesTo m sent none = sent ≡ none
  AdvancesTo m sent (some m') =
      IsLater m m'
      × IsConsistent m'
      × ((is_completed m.state ≡ false) ⊎ ((m' ≡ m) × (sent ≡ none)))
      × ((sent ≡ none) ⊎ (pay_in_confirmed m'.method ≡ some true))

  unfoldable pub Advances : {E : Type 0} → ChargeBuyerMetaModel T → Refreshed T E → Type 0
  Advances m r = AdvancesTo m r.sent r.written

  pub later-AdvancesTo :
      (a b : ChargeBuyerMetaModel T) (sent : Option OrderPaymentUpdateDto)
      (w : Option (ChargeBuyerMetaModel T))
      → IsLater a b
      → is_completed a.state ≡ false
      → AdvancesTo b sent w
      → AdvancesTo a sent w
  later-AdvancesTo a b sent none p open_ h = h
  later-AdvancesTo a b sent (some m) p open_ (later, is, same, paid) =
      (IsLater-trans p later, is, inl open_, paid)

  -- What the answer of the processor changes.
  pub reported-IsLater :
      (m : ChargeBuyerMetaModel T) (mthd : Charge3partyModel T) (t : T)
      → IsLater m (update_3party mthd (update_progress (processor_completed t) m))
  unfolding update_3party
  reported-IsLater m mthd t =
      let p = update_progress-IsLater m (processor_completed t) (omega arith) in
      record {
        same_owner = p.same_owner;
        same_time = p.same_time;
        same_oid = p.same_oid;
        no_less = p.no_less;
      }

  pub reported-open :
      (m : ChargeBuyerMetaModel T) (mthd : Charge3partyModel T) (t : T)
      → is_completed m.state ≡ false
      → is_completed (update_3party mthd (update_progress (processor_completed t) m)).state ≡ false
  unfolding update_3party update_progress
  reported-open m mthd t e = rw e refl

  pub reported-method :
      (m : ChargeBuyerMetaModel T) (mthd : Charge3partyModel T)
      → (update_3party mthd m).method ≡ mthd
  unfolding update_3party
  reported-method m mthd = refl
