-- ===== src/Payment/Charge/Refresh/Life.antt =====
-- The life of a charge: it is created, and refreshed any number of times, whatever the processor,
-- the order service and the repository answer. services/payment/src/usecase/refresh_charge_status.rs
-- and `try_execute_processor` of services/payment/src/usecase/create_charge.rs.
use mathlib.Core.Path.{subst}
use e_commerce.Common.{ℕ, ◌≡◌, refl, sym, ap, ◌∙◌, ◌⊎◌, inl, inr, false, some, String}
use e_commerce.Common.Chrono.{Chrono}
use e_commerce.Payment.Charge.State.{
  ChargeBuyerMetaModel, Charge3partyModel, is_completed, update_progress, update_3party, new_meta,
  started,
}
use e_commerce.Payment.Charge.Refresh.{RefreshContext, Readings, refresh_meta}
use e_commerce.Payment.Charge.Refresh.Later.{
  IsLater, IsConsistent, AdvancesTo, Advances, IsLater-refl, IsLater-trans,
}
use e_commerce.Payment.Charge.Refresh.Steps.{refresh_meta-Advances}

-- Any number of refreshes, each with its own answers of the world and times.
module _ (T D E : Type 0) ⦃c : Chrono T⦄ where
  pub data Reaches (m : ChargeBuyerMetaModel T) : ChargeBuyerMetaModel T → Type 0 where
    here : Reaches m m
    refreshed :
        (ctx : RefreshContext T D E) (now : Readings T) (m1 m2 : ChargeBuyerMetaModel T)
        → Reaches m m1
        → (refresh_meta ctx now m1).written ≡ some m2
        → Reaches m m2

  -- A charge that is made: the processor has accepted it.
  started-IsConsistent :
      (oid : String) (owner : ℕ) (t0 t1 : T) (method : Charge3partyModel T)
      → IsConsistent (started oid owner t0 t1 method)
  unfolding started update_3party update_progress new_meta
  started-IsConsistent oid owner t0 t1 method = inl refl

  -- What holds between two versions of a charge.
  pub IsSound : ChargeBuyerMetaModel T → ChargeBuyerMetaModel T → Type 0
  IsSound m m' = IsLater m m' × IsConsistent m' × ((is_completed m.state ≡ false) ⊎ (m' ≡ m))

  step-IsSound :
      (ctx : RefreshContext T D E) (now : Readings T) (m m' : ChargeBuyerMetaModel T)
      → IsConsistent m
      → (refresh_meta ctx now m).written ≡ some m'
      → IsSound m m'
  unfolding IsSound Advances
  step-IsSound ctx now m m' is e =
      let r = refresh_meta ctx now m in
      let (later, ok', same, paid) =
        subst (AdvancesTo m r.sent) e (refresh_meta-Advances ctx now m is) in
      (later, ok', elim same [ inl h ↦ inl h | inr both ↦ inr both.0 ])

  joined :
      (a b d : ChargeBuyerMetaModel T)
      → (is_completed a.state ≡ false) ⊎ (b ≡ a)
      → (is_completed b.state ≡ false) ⊎ (d ≡ b)
      → (is_completed a.state ≡ false) ⊎ (d ≡ a)
  joined a b d (inl h) q = inl h
  joined a b d (inr p) (inl h) =
      inl (ap (λ (x : ChargeBuyerMetaModel T). is_completed x.state) (sym p) ∙ h)
  joined a b d (inr p) (inr q) = inr (q ∙ p)

  Reaches-IsSound_from :
      (m m' : ChargeBuyerMetaModel T) → IsConsistent m → Reaches m m' → IsSound m m'
  unfolding IsSound
  Reaches-IsSound_from m m' is here = (IsLater-refl m, is, inr refl)
  Reaches-IsSound_from m m' is (refreshed ctx now m1 m2 path e) =
      let (later, is1, same) = Reaches-IsSound_from m m1 is path in
      let (later2, is2, same2) = step-IsSound ctx now m1 m2 is1 e in
      (IsLater-trans later later2, is2, joined m m1 m2 same same2)

  -- A charge that was made and refreshed any number of times, with any answers and times, is known
  -- to the order service only if the processor has confirmed its payment. Each later version has
  -- the same owner, order and time of creation, and is no less far; once the order service knows of
  -- it, it does not change any more.
  pub Reaches-IsSound :
      (oid : String) (owner : ℕ) (t0 t1 : T) (method : Charge3partyModel T)
      (m m' : ChargeBuyerMetaModel T)
      → Reaches (started oid owner t0 t1 method) m
      → Reaches m m'
      → IsSound m m'
  unfolding IsSound
  Reaches-IsSound oid owner t0 t1 method m m' path path' =
      let (later, is, same) =
        Reaches-IsSound_from (started oid owner t0 t1 method) m
          (started-IsConsistent oid owner t0 t1 method) path in
      Reaches-IsSound_from m m' is path'
