-- ===== src/Order/Auth.antt =====
-- What a request is allowed to do: `AppAuthedClaim` of services/order/src/auth.rs.
use e_commerce.Common.{ℕ, Bool, ◌&&◌, Option, none, some, List, ◌==◌, find}

pub data AppAuthPermissionCode : Type 0 where
  can_create_return_req can_create_product_policy : AppAuthPermissionCode

pub data AppAuthQuotaMatCode : Type 0 where
  num_phones num_emails num_order_lines num_product_policies : AppAuthQuotaMatCode

pub record AppAuthClaimPermission : Type 0 where
  pub app_code : ℕ
  pub codename : AppAuthPermissionCode

pub record AppAuthClaimQuota : Type 0 where
  pub app_code : ℕ
  pub mat_code : AppAuthQuotaMatCode
  pub maxnum : ℕ

-- without the times and the audience, which a library checks
pub record AppAuthedClaim : Type 0 where
  pub profile : ℕ
  pub perms : List AppAuthClaimPermission
  pub quota : List AppAuthClaimQuota

-- `app_meta::RESOURCE_QUOTA_AP_CODE` of services/order/src/constant.rs
abbrev pub resource_quota_ap_code : ℕ
resource_quota_ap_code = 4

-- `PartialEq` of the codes of quotas
abbrev quota_code : AppAuthQuotaMatCode → ℕ
quota_code num_phones = 0
quota_code num_emails = 1
quota_code num_order_lines = 2
quota_code num_product_policies = 3

abbrev pub quota_eq : AppAuthQuotaMatCode → AppAuthQuotaMatCode → Bool
quota_eq a b = quota_code a == quota_code b

abbrev pub maxnum_or_zero : Option AppAuthClaimQuota → ℕ
maxnum_or_zero none = 0
maxnum_or_zero (some rule) = rule.maxnum

unfoldable pub quota_limit : AppAuthedClaim → AppAuthQuotaMatCode → ℕ
quota_limit claim code =
    maxnum_or_zero
      (find (λ q. q.app_code == resource_quota_ap_code && quota_eq q.mat_code code) claim.quota)
