-- ===== src/Order/Tests/Quota.antt =====
-- Runs of the check of the quota of a customer: too many lines are asked for.
use e_commerce.Common.{some, [], ◌∷◌, ◌≡◌, refl}
use e_commerce.Common.Outcome.{err}
use e_commerce.Order.Auth.{AppAuthedClaim, num_phones, num_emails, num_order_lines, quota_limit}
use e_commerce.Order.UseCase.Quota.{
  over_quota, validate_quota, Quotas, default_error, validate_quota-Quotas,
}

abbrev pub claim : AppAuthedClaim
claim = record {
  profile = 141;
  perms = [];
  quota =
      record { app_code = 7; mat_code = num_order_lines; maxnum = 90 }
      ∷ record { app_code = 4; mat_code = num_order_lines; maxnum = 3 }
      ∷ record { app_code = 4; mat_code = num_phones; maxnum = 2 }
      ∷ record { app_code = 4; mat_code = num_emails; maxnum = 2 }
      ∷ [];
}

too_many_lines :
    validate_quota claim 1 1 1 2 4
    ≡ err
        (over_quota (record default_error { quota_olines = some (record { max_ = 3; given = 4 }) }))
unfolding validate_quota quota_limit
too_many_lines = refl

validate_quota-Quotas_example : Quotas claim 1 1 1 2 4 (validate_quota claim 1 1 1 2 4)
validate_quota-Quotas_example = validate_quota-Quotas claim 1 1 1 2 4
