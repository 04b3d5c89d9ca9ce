-- ===== src/Contact/Billing.antt =====
-- Who pays: `BillingModel` of services/common/rust/src/model/order.rs.

use e_commerce.Common.{Option, none, some}
use e_commerce.Common.Outcome.{Result, ok, err}
use e_commerce.Common.Text.{Texts}
use e_commerce.Contact.{ContactDto, ContactModel, ContactErrorDto, contact_dto, contact_try_from}
use e_commerce.Contact.Address.{
  PhyAddrDto, PhyAddrModel, PhyAddrErrorDto, address_dto, try_from_opt,
}

pub record BillingDto : Type 0 where
  pub contact : ContactDto
  pub address : Option PhyAddrDto

pub record BillingErrorDto : Type 0 where
  pub contact : Option ContactErrorDto
  pub address : Option PhyAddrErrorDto

pub record BillingModel : Type 0 where
  pub contact : ContactModel
  pub address : Option PhyAddrModel

-- `Option::map` with the conversion of an address
abbrev pub maybe_address : Option PhyAddrModel → Option PhyAddrDto
maybe_address none = none
maybe_address (some v) = some (address_dto v)

-- `From<BillingModel> for BillingDto`
unfoldable pub billing_dto : BillingModel → BillingDto
billing_dto m = record { contact = contact_dto m.contact; address = maybe_address m.address }

-- `if let Err(e) = r { obj.field = Some(e) }`
abbrev pub err_of : {E A : Type 0} → Result E A → Option E
err_of (ok a) = none
err_of (err e) = some e

abbrev pub billing_of :
    Result ContactErrorDto ContactModel
    → Result PhyAddrErrorDto (Option PhyAddrModel)
    → Result BillingErrorDto BillingModel
billing_of (ok contact) (ok maybe_addr) = ok (record { contact = contact; address = maybe_addr })
billing_of (ok contact) (err e) = err (record { contact = none; address = some e })
billing_of (err e) r = err (record { contact = some e; address = err_of r })

-- `TryFrom<BillingDto> for BillingModel`
unfoldable pub billing_try_from : Texts → BillingDto → Result BillingErrorDto BillingModel
billing_try_from lib value =
    billing_of (contact_try_from lib value.contact) (try_from_opt lib value.address)
