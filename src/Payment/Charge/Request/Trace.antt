-- ===== src/Payment/Charge/Request/Trace.antt =====
-- What the request of a charge does to the world, in which order and on which conditions:
-- `ChargeCreateUseCase::execute` of services/payment/src/usecase/create_charge.rs.
use e_commerce.Common.{
  ◌≡◌, refl, ◌⊎◌, inl, inr, Bool, true, false, Option, none, some, List, [], ◌∷◌, ◌++◌, str_eq,
  ◌==◌, eqb_iff, Bool-cases, ap, ◌∙◌, String, arith,
}
use e_commerce.Common.Chrono.{Chrono}
use e_commerce.Common.Outcome.{Outcome, returned, panicked, ◌>>=◌, Result, ok, err, Result-cases}
use e_commerce.Common.Text.{Texts}
use e_commerce.Contact.Billing.{BillingModel, BillingErrorDto, billing_try_from}
use e_commerce.Payment.Auth.{AppAuthedClaim}
use e_commerce.Common.Decimal.{Decimal}
use e_commerce.Payment.OrderReplica.{OrderLineModelSet, OrderModelError}
use e_commerce.Payment.OrderReplica as OrderReplica
use e_commerce.Payment.OrderReplica.Replicates.{Replicates, try_from-Replicates}
use e_commerce.Payment.Charge.State.{Charge3partyModel}
use e_commerce.Payment.Charge.Create.{
  ChargeRespErrorDto, ChargeBuyerModel, PaymentMethodErrorReason, try_from,
}
use e_commerce.Payment.Charge.Create.Limits.{Charges, try_from-Charges}
use e_commerce.Payment.Charge.Request.{
  Action, lock_taken, lock_released, order_asked, order_saved, payment_started, charge_saved, Done,
  RequestContext, RequestTimes, ChargeReqDto, ChargeCreateRespDto, ChargeCreateUcError,
  AppProcessorPayInResult, OrderReplicaPaymentDto, accepted_charge, owner_checked, released,
  respond, then_do,
}
use e_commerce.Payment.Charge.Request.Steps.{
  ask_order, replied, with_lock, rpc_sync_order, with_billing, save_order, try_save_order,
  start_payment, save_charge, try_execute_processor, with_unpaid, validate_access_control, execute,
}
use e_commerce.Payment.Charge.Request.Access.{IsAllowed, validate-IsAllowed}

-- How far a request has come.
pub data Phase (T D : Type 0) : Type 0 where
  idle locked unlocked : Phase T D
  order_known : OrderLineModelSet T D → Phase T D
  paying finished : ChargeBuyerModel T D → Phase T D

-- A request may end in any phase, but not with the lock.
abbrev pub MayEnd : {T D : Type 0} → Phase T D → Type 0
MayEnd locked = ⊥
MayEnd _ = Unit

module _ {T D E M R : Type 0} ⦃c : Chrono T⦄ ⦃d : Decimal D⦄ (ctx : RequestContext T D E M R)
    (now : RequestTimes T) (claim : AppAuthedClaim) (req : ChargeReqDto M) where
  abbrev pub IsChargeOf : OrderLineModelSet T D → ChargeBuyerModel T D → Type 0
  IsChargeOf o m = Charges o req.order now.at_lines now.at_charge (ok m)

  -- The order as the reply of the order service has it, to the message that this user sends.
  abbrev pub IsReply : OrderReplicaPaymentDto → Type 0
  IsReply data_ =
      (message : String) × (ctx.send_and_receive claim.profile (c.trunc_to now.at_request 6)
          req.order.id
        ≡ ok message)
      × (ctx.parse_reply message ≡ ok data_)

  -- What may follow what: an order that is not saved yet is asked for under the lock, and saved
  -- after it, as it was copied from the reply; a payment is started with a charge of an order that
  -- was saved before for the user, or of the one copied, if its saving succeeded, and it is the one
  -- asked for and the user's; and the charge is saved as the processor has accepted it.
  pub data Step : Phase T D → Action T D → Phase T D → Type 0 where
    locks :
        ctx.get_unpaid_olines claim.profile req.order.id ≡ ok none
        → ctx.lock_acquire claim.profile req.order.id ≡ ok true
        → Step idle lock_taken locked
    asks : Step locked (order_asked req.order.id) locked
    unlocks : Step locked lock_released unlocked
    saves :
        (o : OrderLineModelSet T D) (data_ : OrderReplicaPaymentDto)
        → IsReply data_
        → Replicates data_.oid data_.usr_id data_.lines data_.currency now.at_order
            (returned (ok o))
        → Step unlocked (order_saved o) (order_known o)
    pays_saved :
        (o : OrderLineModelSet T D) (m : ChargeBuyerModel T D)
        → ctx.get_unpaid_olines claim.profile req.order.id ≡ ok (some o)
        → IsChargeOf o m
        → Step idle (payment_started m) (paying m)
    pays_copied :
        (o : OrderLineModelSet T D) (m : ChargeBuyerModel T D) (billing : BillingModel)
        → ctx.create_order o billing ≡ ok tt
        → str_eq o.id req.order.id ≡ true
        → o.buyer_id ≡ claim.profile
        → IsChargeOf o m
        → Step (order_known o) (payment_started m) (paying m)
    ends :
        (m : ChargeBuyerModel T D) (result : AppProcessorPayInResult T R)
        (method_m : Charge3partyModel T)
        → ctx.pay_in_start m req.method ≡ ok (result, method_m)
        → Step
            (paying m)
            (charge_saved (accepted_charge m result method_m))
            (finished (accepted_charge m result method_m))

  pub data Runs : Phase T D → List (Action T D) → Phase T D → Type 0 where
    stop : (p : Phase T D) → Runs p [] p
    step :
        (p q r : Phase T D) (a : Action T D) (log : List (Action T D))
        → Step p a q
        → Runs q log r
        → Runs p (a ∷ log) r

  Runs-append :
      (p q r : Phase T D) (xs ys : List (Action T D))
      → Runs p xs q
      → Runs q ys r
      → Runs p (xs ++ ys) r
  Runs-append p q r xs ys (stop p') h = h
  Runs-append p q r xs ys (step p' q' r' a log s path) h =
      step p q' r a (log ++ ys) s (Runs-append q' q r log ys path h)

  Runs-one : (p q : Phase T D) (a : Action T D) → Step p a q → Runs p (a ∷ []) q
  Runs-one p q a s = step p q q a [] s (stop q)

  -- A reply without an error comes after the charge was saved.
  abbrev pub Serves : Phase T D → Result (ChargeCreateUcError E) (ChargeCreateRespDto T R) → Type 0
  Serves p (err e) = Unit
  Serves (finished m) (ok r) = ctx.create_charge m ≡ ok tt
  Serves _ (ok r) = ⊥

  pub Follows : Outcome (Done T D E (ChargeCreateRespDto T R)) → Type 0
  Follows panicked = ⊥
  Follows (returned (log, reply)) =
      ((log ≡ []) ⊎ IsAllowed ctx claim req)
      × ((p : Phase T D) × Runs idle log p × MayEnd p × Serves p reply)

  ask_order-Runs :
      (r : Result E (Unit {0}))
      → Runs locked (ask_order ctx now.at_request claim.profile req.order.id r).0 locked
  ask_order-Runs (err e) = stop locked
  ask_order-Runs (ok u) = Runs-one locked locked (order_asked req.order.id) asks

  abbrev Synced : Done T D E OrderReplicaPaymentDto → Type 0
  Synced (log, err e) = (p : Phase T D) × Runs idle log p × MayEnd p
  Synced (log, ok data_) = Runs idle log unlocked × IsReply data_

  replied-IsReply :
      (r : Result E String) (data_ : OrderReplicaPaymentDto)
      → ctx.send_and_receive claim.profile (c.trunc_to now.at_request 6) req.order.id ≡ r
      → replied ctx r ≡ ok data_
      → IsReply data_
  replied-IsReply (err e) data_ sent h = ground (arith, h)
  replied-IsReply (ok message) data_ sent h = elim (Result-cases (ctx.parse_reply message)) [
    | inl (x, e) ↦ (message, sent, e ∙ ap ok (ground (arith, rw e at h)))
    | inr (x, e) ↦ ground (arith, rw e at h)
  ]

  ask_order-IsReply :
      (r : Result E (Unit {0})) (data_ : OrderReplicaPaymentDto)
      → (ask_order ctx now.at_request claim.profile req.order.id r).1 ≡ ok data_
      → IsReply data_
  ask_order-IsReply (err e) data_ h = ground (arith, h)
  ask_order-IsReply (ok u) data_ h = replied-IsReply _ data_ refl h

  unlocked-Synced :
      (log : List (Action T D)) (x : Result (Unit {0}) (Unit {0}))
      (r : Result (ChargeCreateUcError E) OrderReplicaPaymentDto)
      → Runs idle log unlocked
      → ((data_ : OrderReplicaPaymentDto) → r ≡ ok data_ → IsReply data_)
      → Synced (log, released x r)
  unlocked-Synced log (err e) r h copied = (unlocked, h, tt)
  unlocked-Synced log (ok u) (err e) h copied = (unlocked, h, tt)
  unlocked-Synced log (ok u) (ok data_) h copied = (h, copied data_ refl)

  with_lock-Synced :
      (r : Result (Unit {0}) Bool)
      → ctx.get_unpaid_olines claim.profile req.order.id ≡ ok none
      → ctx.lock_acquire claim.profile req.order.id ≡ r
      → Synced (with_lock ctx now.at_request claim.profile req.order.id r)
  with_lock-Synced (err e) unsaved lock = (idle, stop idle, tt)
  with_lock-Synced (ok false) unsaved lock = (idle, stop idle, tt)
  with_lock-Synced (ok true) unsaved lock =
      let out = ask_order ctx now.at_request claim.profile req.order.id ctx.acquire in
      unlocked-Synced (lock_taken ∷ out.0 ++ lock_released ∷ [])
        (ctx.lock_release claim.profile req.order.id) out.1
        (step idle locked unlocked lock_taken (out.0 ++ lock_released ∷ []) (locks unsaved lock) (
          Runs-append locked locked unlocked out.0 (lock_released ∷ []) (ask_order-Runs ctx.acquire)
            (Runs-one locked unlocked lock_released unlocks)))
        (ask_order-IsReply ctx.acquire)

  -- After an order is loaded: a payment may be started with a charge of it.
  abbrev Loads : Phase T D → Outcome (Done T D E (OrderLineModelSet T D)) → Type 0
  Loads p panicked = ⊥
  Loads p (returned (log, err e)) = (q : Phase T D) × Runs p log q × MayEnd q
  Loads p (returned (log, ok o)) =
      (q : Phase T D) × Runs p log q
      × MayEnd q
      × ((m : ChargeBuyerModel T D) → IsChargeOf o m → Step q (payment_started m) (paying m))

  owner_checked-Loads :
      (o : OrderLineModelSet T D) (billing : BillingModel) (r : Result E (Unit {0}))
      → ctx.create_order o billing ≡ r
      → Runs unlocked (order_saved o ∷ []) (order_known o)
      → Loads unlocked (returned (order_saved o ∷ [], owner_checked claim.profile req.order.id o r))
  owner_checked-Loads o billing (err e) saved h = (order_known o, h, tt)
  owner_checked-Loads o billing (ok u) saved h = elim (Bool-cases (str_eq o.id req.order.id)) [
    | inr e ↦ rw e (order_known o, h, tt)
    | inl e ↦ elim (Bool-cases (o.buyer_id == claim.profile)) [
      | inr e' ↦ rw (e, e') (order_known o, h, tt)
      | inl e' ↦
          rw (e, e')
            (
              order_known o,
              h,
              tt,
              λ m is. pays_copied o m billing saved e ((eqb_iff o.buyer_id claim.profile).0 e') is,
            )
    ]
  ]

  save_order-Loads :
      (data_ : OrderReplicaPaymentDto) (billing : BillingModel)
      (r : Outcome (Result (List OrderModelError) (OrderLineModelSet T D)))
      → IsReply data_
      → Replicates data_.oid data_.usr_id data_.lines data_.currency now.at_order r
      → Loads unlocked (r >>= λ x. returned (save_order ctx claim.profile req.order.id billing x))
  unfolding Replicates
  save_order-Loads data_ billing panicked copied h = h
  save_order-Loads data_ billing (returned (err es)) copied h = (unlocked, stop unlocked, tt)
  save_order-Loads data_ billing (returned (ok o)) copied h =
      owner_checked-Loads o billing (ctx.create_order o billing) refl
        (Runs-one unlocked (order_known o) (order_saved o) (saves o data_ copied h))

  with_billing-Loads :
      (data_ : OrderReplicaPaymentDto) (b : Result BillingErrorDto BillingModel)
      → IsReply data_
      → Loads unlocked (with_billing ctx now.at_order claim.profile req.order.id data_ b)
  with_billing-Loads data_ (err e) copied = (unlocked, stop unlocked, tt)
  with_billing-Loads data_ (ok billing) copied =
      save_order-Loads data_ billing
        (OrderReplica.try_from data_.oid data_.usr_id data_.lines data_.currency now.at_order)
        copied
        (try_from-Replicates T D data_.oid data_.usr_id data_.lines data_.currency now.at_order)

  after-Loads :
      (p q : Phase T D) (log : List (Action T D)) (o : Outcome (Done T D E (OrderLineModelSet T D)))
      → Runs p log q
      → Loads q o
      → Loads p (o >>= λ r. returned (log ++ r.0, r.1))
  after-Loads p q log panicked path h = h
  after-Loads p q log (returned (log', err e)) path (r, path', may) =
      (r, Runs-append p q r log log' path path', may)
  after-Loads p q log (returned (log', ok o)) path (r, path', may, pays) =
      (r, Runs-append p q r log log' path path', may, pays)

  synced-Loads :
      (lib : Texts) (r : Done T D E OrderReplicaPaymentDto)
      → Synced r
      → Loads idle (then_do r (try_save_order lib ctx now.at_order claim.profile req.order.id))
  unfolding try_save_order
  synced-Loads lib (log, err e) h = h
  synced-Loads lib (log, ok data_) (h, copied) =
      after-Loads idle unlocked log _ h
        (with_billing-Loads data_ (billing_try_from lib data_.billing) copied)

  with_unpaid-Loads :
      (lib : Texts) (r : Result E (Option (OrderLineModelSet T D)))
      → ctx.get_unpaid_olines claim.profile req.order.id ≡ r
      → Loads idle (with_unpaid lib ctx now claim.profile req.order.id r)
  unfolding rpc_sync_order
  with_unpaid-Loads lib (err e) h = (idle, stop idle, tt)
  with_unpaid-Loads lib (ok (some o)) h = (idle, stop idle, tt, λ m is. pays_saved o m h is)
  with_unpaid-Loads lib (ok none) h =
      synced-Loads lib _ (with_lock-Synced (ctx.lock_acquire claim.profile req.order.id) h refl)

  -- From a phase in which a charge may be paid to the end.
  abbrev Pays : Phase T D → Done T D E (ChargeCreateRespDto T R) → Type 0
  Pays p (log, reply) = (q : Phase T D) × Runs p log q × MayEnd q × Serves q reply

  respond-Serves :
      (m : ChargeBuyerModel T D) (result : AppProcessorPayInResult T R) (r : Result E (Unit {0}))
      → ctx.create_charge m ≡ r
      → Serves (finished m) (respond now.at_response result r)
  respond-Serves m result (err e) h = tt
  respond-Serves m result (ok u) h = h

  save_charge-Pays :
      (p : Phase T D) (m : ChargeBuyerModel T D)
      (r : Result PaymentMethodErrorReason (AppProcessorPayInResult T R × Charge3partyModel T))
      → Step p (payment_started m) (paying m)
      → ctx.pay_in_start m req.method ≡ r
      → Pays p (save_charge ctx now.at_response m r)
  save_charge-Pays p m (err e) s h = (paying m, Runs-one p (paying m) _ s, tt, tt)
  save_charge-Pays p m (ok (result, method_m)) s h =
      let m' = accepted_charge m result method_m in
      (
        finished m',
        step p (paying m) (finished m') _ _ s
            (Runs-one (paying m) (finished m') _ (ends m result method_m h)),
        tt,
        respond-Serves m' result (ctx.create_charge m') refl,
      )

  start_payment-Pays :
      (p : Phase T D) (o : OrderLineModelSet T D)
      (r : Result ChargeRespErrorDto (ChargeBuyerModel T D))
      → MayEnd p
      → ((m : ChargeBuyerModel T D) → IsChargeOf o m → Step p (payment_started m) (paying m))
      → Charges o req.order now.at_lines now.at_charge r
      → Pays p (start_payment ctx now.at_response req.method r)
  start_payment-Pays p o (err e) may pays h = (p, stop p, may, tt)
  start_payment-Pays p o (ok m) may pays h =
      save_charge-Pays p m (ctx.pay_in_start m req.method) (pays m h) refl

  loaded-Follows :
      IsAllowed ctx claim req
      → (r : Outcome (Done T D E (OrderLineModelSet T D))) → Loads idle r
      → Follows (r >>= λ x. then_do x (λ o. returned (try_execute_processor ctx now o req)))
  unfolding Follows try_execute_processor
  loaded-Follows allowed panicked h = h
  loaded-Follows allowed (returned (log, err e)) (p, path, may) = (inr allowed, (p, path, may, tt))
  loaded-Follows allowed (returned (log, ok o)) (p, path, may, pays) =
      let r = try_from o req.order now.at_lines now.at_charge in
      let log' = (start_payment ctx now.at_response req.method r).0 in
      let (q, path', may', serves) =
        start_payment-Pays p o r may pays
          (try_from-Charges T D o req.order now.at_lines now.at_charge) in
      (inr allowed, (q, Runs-append idle p q log log' path path', may', serves))

  -- The request of a charge never panics. It does nothing unless the user may create charges, and
  -- the saved charges of the order, if there are any, are the user's and their number, as a u32, no
  -- more than the quota. Whatever it does is in order: an order that is not saved for the user yet
  -- is asked for under the lock that was acquired, and saved afterwards as it was copied from the
  -- reply to the message of this user; the lock is released before the end; a payment is started
  -- only with a charge that the lines of an order cover, which was saved for the user before, or
  -- was just copied, is the one asked for and the user's, and whose saving succeeded; and the
  -- charge is saved as the processor has accepted it. A reply without an error means that it was
  -- saved.
  pub execute-Follows : (lib : Texts) → Follows (execute lib ctx now claim req)
  unfolding Follows execute
  execute-Follows lib = elim (Result-cases (validate_access_control ctx claim req.order.id)) [
    | inr (x, e) ↦ rw e (inl refl, (idle, stop idle, tt, tt))
    | inl (u, e) ↦ rw e (
        loaded-Follows (validate-IsAllowed ctx claim req u e)
          (with_unpaid lib ctx now claim.profile req.order.id
            (ctx.get_unpaid_olines claim.profile req.order.id))
          (with_unpaid-Loads lib (ctx.get_unpaid_olines claim.profile req.order.id) refl))
  ]
