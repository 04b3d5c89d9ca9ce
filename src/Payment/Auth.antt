-- ===== src/Payment/Auth.antt =====
-- What a request is allowed to do: `AppAuthedClaim` of services/payment/src/auth/jwt.rs.
use e_commerce.Common.{
  ℕ, Bool, true, false, ◌&&◌, ◌||◌, Option, none, some, List, [], ◌∷◌, ◌==◌, find,
}

pub data AppAuthPermissionCode : Type 0 where
  can_create_charge can_update_charge_progress can_capture_charge : AppAuthPermissionCode
  can_onboard_merchant can_finalize_refund : AppAuthPermissionCode

pub data AppAuthQuotaMatCode : Type 0 where
  num_charges_per_order : AppAuthQuotaMatCode

pub record AppAuthClaimPermission : Type 0 where
  pub app_code : ℕ
  pub codename : AppAuthPermissionCode

pub record AppAuthClaimQuota : Type 0 where
  pub app_code : ℕ
  pub mat_code : AppAuthQuotaMatCode
  pub maxnum : ℕ

-- without the times and the audience, which a library checks
pub record AppAuthedClaim : Type 0 where
  pub profile : ℕ
  pub perms : List AppAuthClaimPermission
  pub quota : List AppAuthClaimQuota

-- `app_meta::RESOURCE_QUOTA_AP_CODE`
abbrev pub resource_quota_ap_code : ℕ
resource_quota_ap_code = 7

abbrev permission_code : AppAuthPermissionCode → ℕ
permission_code can_create_charge = 0
permission_code can_update_charge_progress = 1
permission_code can_capture_charge = 2
permission_code can_onboard_merchant = 3
permission_code can_finalize_refund = 4

-- `PartialEq` of the codes; there is one code of a quota
abbrev pub permission_eq : AppAuthPermissionCode → AppAuthPermissionCode → Bool
permission_eq a b = permission_code a == permission_code b

abbrev pub quota_eq : AppAuthQuotaMatCode → AppAuthQuotaMatCode → Bool
quota_eq num_charges_per_order num_charges_per_order = true

abbrev pub any_permission : AppAuthPermissionCode → List AppAuthClaimPermission → Bool
any_permission code [] = false
any_permission code (p ∷ ps) =
    (p.app_code == resource_quota_ap_code && permission_eq p.codename code)
    || any_permission code ps

unfoldable pub contain_permission : AppAuthedClaim → AppAuthPermissionCode → Bool
contain_permission claim code = any_permission code claim.perms

abbrev pub maxnum_or_zero : Option AppAuthClaimQuota → ℕ
maxnum_or_zero none = 0
maxnum_or_zero (some rule) = rule.maxnum

unfoldable pub quota_limit : AppAuthedClaim → AppAuthQuotaMatCode → ℕ
quota_limit claim code =
    maxnum_or_zero
      (find (λ q. q.app_code == resource_quota_ap_code && quota_eq q.mat_code code) claim.quota)
