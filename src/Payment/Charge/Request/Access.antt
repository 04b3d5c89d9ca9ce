-- ===== src/Payment/Charge/Request/Access.antt =====
-- Who may ask for a charge: `ChargeCreateUseCase::validate_access_control` of
-- services/payment/src/usecase/create_charge.rs.
use e_commerce.Common.{
  ℕ, ◌≤◌, ◌%◌, ◌^◌, ◌≡◌, ◌⊎◌, inl, inr, true, Option, none, some, List, [], length, ltb, ◌==◌,
  eqb_iff, arith, Bool-cases,
}
use e_commerce.Common.Outcome.{ok, Result-cases}
use e_commerce.Payment.Auth.{
  AppAuthedClaim, can_create_charge, num_charges_per_order, contain_permission, quota_limit,
}
use e_commerce.Payment.Charge.Request.{RequestContext, ChargeReqDto, check_quota, or_else}
use e_commerce.Payment.Charge.Request.Steps.{validate_access_control}

module _ {T D E M R : Type 0} (ctx : RequestContext T D E M R) (claim : AppAuthedClaim)
    (req : ChargeReqDto M) where
  -- The user may ask for charges, and has asked for no more of the order than the quota says.
  abbrev pub IsAllowed : Type 0
  IsAllowed =
      (contain_permission claim can_create_charge ≡ true)
      × ((ctx.fetch_charge_ids req.order.id ≡ ok none)
          ⊎ ((ctimes : List T) × (ctx.fetch_charge_ids req.order.id
                ≡ ok (some (claim.profile, ctimes)))
              × (length ctimes % 2 ^ 32 ≤ quota_limit claim num_charges_per_order)))

  -- The access control lets through only what is allowed.
  check_quota-IsAllowed :
      (ids : Option (ℕ × List T)) (u : Unit {0})
      → contain_permission claim can_create_charge ≡ true
      → ctx.fetch_charge_ids req.order.id ≡ ok ids
      → check_quota {E = E} claim (or_else (claim.profile, []) ids) ≡ ok u
      → IsAllowed
  check_quota-IsAllowed none u permitted h e = (permitted, inl h)
  check_quota-IsAllowed (some (usr, ctimes)) u permitted h e =
      let limit = quota_limit claim num_charges_per_order in
      elim (Bool-cases (usr == claim.profile)) [
        | inr other ↦ ground (arith, rw other at e)
        | inl same ↦ elim (Bool-cases (ltb limit (length ctimes % 2 ^ 32))) [
          | inl many ↦ ground (arith, rw (same, many) at e)
          | inr few ↦
              let is : usr ≡ claim.profile = (eqb_iff usr claim.profile).0 same in
              (permitted, inr (ctimes, rw is at h, ground (arith, few)))
        ]
      ]

  pub validate-IsAllowed :
      (u : Unit {0}) → validate_access_control ctx claim req.order.id ≡ ok u → IsAllowed
  unfolding validate_access_control
  validate-IsAllowed u e = elim (Bool-cases (contain_permission claim can_create_charge)) [
    | inr refused ↦ ground (arith, rw refused at e)
    | inl permitted ↦ elim (Result-cases (ctx.fetch_charge_ids req.order.id)) [
      | inr (x, h) ↦ ground (arith, rw (permitted, h) at e)
      | inl (ids, h) ↦ check_quota-IsAllowed ids u permitted h (rw (permitted, h) at e)
    ]
  ]
