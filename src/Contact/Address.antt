-- ===== src/Contact/Address.antt =====
-- Addresses: `PhyAddrModel` of services/common/rust/src/model/order.rs.
use e_commerce.Common.{Bool, not, ◌&&◌, ◌||◌, Option, none, some, String, if◌then◌else◌}
use e_commerce.Common.Outcome.{Result, ok, err}
use e_commerce.Common.Text.{Texts, no_text, all_chars, any_char}
use e_commerce.Contact.{is_none}

-- services/common/rust/src/api/dto.rs
pub data CountryCode : Type 0 where
  tw th in_ id us unknown_country : CountryCode

pub record PhyAddrDto : Type 0 where
  pub country : CountryCode
  pub region : String
  pub city : String
  pub distinct : String
  pub street_name : Option String
  pub detail : String

-- services/common/rust/src/api/web/dto.rs
pub data PhyAddrNationErrorReason : Type 0 where
  not_support : PhyAddrNationErrorReason

pub data PhyAddrRegionErrorReason : Type 0 where
  no_region invalid_region region_not_exist region_not_support : PhyAddrRegionErrorReason

pub data PhyAddrDistinctErrorReason : Type 0 where
  no_detail invalid_detail : PhyAddrDistinctErrorReason

pub record PhyAddrErrorDto : Type 0 where
  pub country : Option PhyAddrNationErrorReason
  pub region : Option PhyAddrRegionErrorReason
  pub city : Option PhyAddrRegionErrorReason
  pub distinct : Option PhyAddrDistinctErrorReason
  pub street_name : Option PhyAddrDistinctErrorReason
  pub detail : Option PhyAddrDistinctErrorReason

pub record PhyAddrModel : Type 0 where
  pub country : CountryCode
  pub region : String
  pub city : String
  pub distinct : String
  pub street_name : Option String
  pub detail : String

-- `From<PhyAddrModel> for PhyAddrDto`
unfoldable pub address_dto : PhyAddrModel → PhyAddrDto
address_dto m = record {
  country = m.country;
  region = m.region;
  city = m.city;
  distinct = m.distinct;
  street_name = m.street_name;
  detail = m.detail;
}

module _ (lib : Texts) where
  -- `check_region`
  unfoldable pub check_region : String → Option PhyAddrRegionErrorReason
  check_region value =
      if no_text value
      then some no_region
      else if not (all_chars (λ c. lib.is_alphabetic c || lib.is_whitespace c) value)
      then some invalid_region
      else none

  -- `contain_ctrl_char`
  unfoldable pub contain_ctrl_char : String → Option PhyAddrDistinctErrorReason
  contain_ctrl_char value =
      if no_text value
      then some no_detail
      else if any_char lib.is_control value
      then some invalid_detail
      else none

  abbrev pub check_street : Option String → Option PhyAddrDistinctErrorReason
  check_street none = none
  check_street (some v) = contain_ctrl_char v

  abbrev pub error_of_address : PhyAddrDto → PhyAddrErrorDto
  error_of_address value = record {
    country = none;
    region = check_region value.region;
    city = check_region value.city;
    distinct = contain_ctrl_char value.distinct;
    street_name = check_street value.street_name;
    detail = contain_ctrl_char value.detail;
  }

  abbrev pub is_correct : PhyAddrErrorDto → Bool
  is_correct e =
      is_none e.region
      && is_none e.city
      && is_none e.detail
      && is_none e.distinct
      && is_none e.street_name

  -- `TryFrom<PhyAddrDto> for PhyAddrModel`
  unfoldable pub address_try_from : PhyAddrDto → Result PhyAddrErrorDto PhyAddrModel
  address_try_from value =
      if is_correct (error_of_address value)
      then ok (record {
        country = value.country;
        region = value.region;
        city = value.city;
        distinct = value.distinct;
        street_name = value.street_name;
        detail = value.detail;
      })
      else err (error_of_address value)

  abbrev pub some_address :
      Result PhyAddrErrorDto PhyAddrModel → Result PhyAddrErrorDto (Option PhyAddrModel)
  some_address (ok m) = ok (some m)
  some_address (err e) = err e

  -- `PhyAddrModel::try_from_opt`
  unfoldable pub try_from_opt : Option PhyAddrDto → Result PhyAddrErrorDto (Option PhyAddrModel)
  try_from_opt none = ok none
  try_from_opt (some d) = some_address (address_try_from d)
