-- ===== src/Order/UseCase/Quota.antt =====
-- How much a customer may ask for: `CreateOrderUseCase::validate_quota` of
-- services/order/src/usecase/manage_order.rs.
use e_commerce.Common.{
  ℕ, ◌≤◌, ◌≡◌, false, ◌&&◌, ◌⊎◌, Option, none, some, List, if◌then◌else◌, ltb, arith,
}
use e_commerce.Common.Outcome.{Result, ok, err}
use e_commerce.Contact.{ContactErrorDto, QuotaResourceErrorDto, quota_exceed, is_none}
use e_commerce.Contact.Billing.{BillingErrorDto}
use e_commerce.Order.Auth.{AppAuthedClaim, num_phones, num_emails, num_order_lines, quota_limit}
use e_commerce.Order.Dto.{OrderLineCreateErrorDto}
use e_commerce.Order.Price.{AppErrorCode}
use e_commerce.Order.Shipping.{ShippingErrorDto}

-- services/order/src/api/web/dto.rs
pub record OrderCreateRespErrorDto : Type 0 where
  pub order_lines : Option (List OrderLineCreateErrorDto)
  pub billing : Option BillingErrorDto
  pub shipping : Option ShippingErrorDto
  pub quota_olines : Option QuotaResourceErrorDto

-- `CreateOrderUsKsErr`, with the codes of the errors of the server
pub data CreateOrderError : Type 0 where
  bad_content over_quota : OrderCreateRespErrorDto → CreateOrderError
  failed_server : List AppErrorCode → CreateOrderError

abbrev pub default_error : OrderCreateRespErrorDto
default_error = record { order_lines = none; billing = none; shipping = none; quota_olines = none }

-- one entry of the quota
abbrev pub exceeded : ℕ → ℕ → Option QuotaResourceErrorDto
exceeded limit given_num =
    if ltb limit given_num then some (record { max_ = limit; given = given_num }) else none

abbrev pub quota_contact :
    Option QuotaResourceErrorDto → Option QuotaResourceErrorDto → Option ContactErrorDto
quota_contact quota_phone quota_email =
    if is_none quota_email && is_none quota_phone
    then none
    else some (record {
      first_name = none;
      last_name = none;
      emails = none;
      phones = none;
      quota_email = quota_email;
      quota_phone = quota_phone;
      nonfield = some quota_exceed;
    })

abbrev pub quota_shipping : Option ContactErrorDto → Option ShippingErrorDto
quota_shipping none = none
quota_shipping (some e) = some (record { contact = some e; address = none; option = none })

abbrev pub quota_billing : Option ContactErrorDto → Option BillingErrorDto
quota_billing none = none
quota_billing (some e) = some (record { contact = some e; address = none })

-- the numbers of mails and phones of the recipient and of the payer, and of lines
unfoldable pub validate_quota :
    AppAuthedClaim → ℕ → ℕ → ℕ → ℕ → ℕ → Result CreateOrderError (Unit {0})
validate_quota claim ship_emails ship_phones bill_emails bill_phones olines =
    let limit = quota_limit claim in
    let s_phone = exceeded (limit num_phones) ship_phones in
    let s_email = exceeded (limit num_emails) ship_emails in
    let b_phone = exceeded (limit num_phones) bill_phones in
    let b_email = exceeded (limit num_emails) bill_emails in
    let lines = exceeded (limit num_order_lines) olines in
    if is_none s_phone && is_none s_email && is_none b_phone && is_none b_email && is_none lines
    then ok tt
    else err (
        over_quota (record {
          order_lines = none;
          shipping = quota_shipping (quota_contact s_phone s_email);
          billing = quota_billing (quota_contact b_phone b_email);
          quota_olines = lines;
        }))

abbrev pub IsWithinQuota : AppAuthedClaim → ℕ → ℕ → ℕ → ℕ → ℕ → Type 0
IsWithinQuota claim ship_emails ship_phones bill_emails bill_phones olines =
    (ship_emails ≤ quota_limit claim num_emails)
    × (ship_phones ≤ quota_limit claim num_phones)
    × (bill_emails ≤ quota_limit claim num_emails)
    × (bill_phones ≤ quota_limit claim num_phones)
    × (olines ≤ quota_limit claim num_order_lines)

unfoldable pub Quotas :
    AppAuthedClaim → ℕ → ℕ → ℕ → ℕ → ℕ → Result CreateOrderError (Unit {0}) → Type 0
Quotas claim se sp be bp n (ok u) = IsWithinQuota claim se sp be bp n
Quotas claim se sp be bp n (err (bad_content e)) = ⊥
Quotas claim se sp be bp n (err (failed_server es)) = ⊥
Quotas claim se sp be bp n (err (over_quota e)) =
    ¬ IsWithinQuota claim se sp be bp n
    × ((is_none e.quota_olines ≡ false) ⊎ (n ≤ quota_limit claim num_order_lines))
    × ((is_none e.shipping ≡ false)
        ⊎ ((se ≤ quota_limit claim num_emails) × (sp ≤ quota_limit claim num_phones)))
    × ((is_none e.billing ≡ false)
        ⊎ ((be ≤ quota_limit claim num_emails) × (bp ≤ quota_limit claim num_phones)))

-- An order passes the check of the quota only if the mails and phones of the recipient and of the
-- payer and the lines are within the limits of the customer. The only error is that of the quota;
-- some number is then over its limit, and an order whose lines, recipient or payer the error leaves
-- out is within the limits there.
pub validate_quota-Quotas :
    (claim : AppAuthedClaim) (se sp be bp n : ℕ)
    → Quotas claim se sp be bp n (validate_quota claim se sp be bp n)
unfolding Quotas validate_quota
validate_quota-Quotas claim se sp be bp n = ground arith
