-- ===== src/Contact.antt =====
-- Persons who pay or receive: `ContactModel` of services/common/rust/src/model/order.rs.
pub mod Accepts
pub mod Address
pub mod Billing
pub mod Tests
use e_commerce.Common.{
  ℕ, suc, ◌+◌, ◌<◌, ◌≤◌, Bool, true, false, not, ◌&&◌, Option, none, some, List, [], ◌∷◌, map,
  String, leb, ltb, ◌==◌, if◌then◌else◌, is_empty,
}
use e_commerce.Common.Outcome.{Result, ok, err}
use e_commerce.Common.Text.{Texts, byte_len, no_text, all_chars, is_ascii_digit}

-- services/common/rust/src/api/dto.rs
pub record PhoneNumberDto : Type 0 where
  pub nation : ℕ
  pub number : String

pub record ContactDto : Type 0 where
  pub first_name : String
  pub last_name : String
  pub emails : List String
  pub phones : List PhoneNumberDto

-- services/common/rust/src/api/web/dto.rs
pub record QuotaResourceErrorDto : Type 0 where
  pub max_ : ℕ
  pub given : ℕ

pub data PhoneNumNationErrorReason : Type 0 where
  invalid_code : PhoneNumNationErrorReason

pub data ContactErrorReason : Type 0 where
  empty_text invalid_char : ContactErrorReason

pub data ContactNonFieldErrorReason : Type 0 where
  email_missing phone_missing quota_exceed : ContactNonFieldErrorReason

pub record PhoneNumberErrorDto : Type 0 where
  pub nation : Option PhoneNumNationErrorReason
  pub number : Option ContactErrorReason

pub record ContactErrorDto : Type 0 where
  pub first_name : Option ContactErrorReason
  pub last_name : Option ContactErrorReason
  pub emails : Option (List (Option ContactErrorReason))
  pub phones : Option (List (Option PhoneNumberErrorDto))
  pub nonfield : Option ContactNonFieldErrorReason
  pub quota_email : Option QuotaResourceErrorDto
  pub quota_phone : Option QuotaResourceErrorDto

pub record ContactModel : Type 0 where
  pub first_name : String
  pub last_name : String
  pub emails : List String
  pub phones : List PhoneNumberDto

-- `From<ContactModel> for ContactDto`
unfoldable pub contact_dto : ContactModel → ContactDto
contact_dto m = record {
  first_name = m.first_name;
  last_name = m.last_name;
  emails = m.emails;
  phones = m.phones;
}

-- `Option::is_none`
abbrev pub is_none {ℓ} : {A : Type ℓ} → Option A → Bool
is_none none = true
is_none (some a) = false

-- how often `num_err` is raised: once for each entry that is an error
abbrev pub num_err {ℓ} : {A : Type ℓ} → List (Option A) → ℕ
num_err [] = 0
num_err (none ∷ os) = num_err os
num_err (some a ∷ os) = suc (num_err os)

-- the list of the entries, if one is an error
abbrev pub error_list {ℓ} : {A : Type ℓ} → List (Option A) → Option (List (Option A))
error_list os = if num_err os == 0 then none else some os

abbrev pub nation_error : ℕ → Option PhoneNumNationErrorReason
nation_error n = if ltb 0 n && leb n 999 then none else some invalid_code

abbrev pub number_error : String → Option ContactErrorReason
number_error s = if all_chars is_ascii_digit s then none else some invalid_char

abbrev pub check_phone : PhoneNumberDto → Option PhoneNumberErrorDto
check_phone d =
    let nation = nation_error d.nation in
    let number = number_error d.number in
    if is_none nation && is_none number
    then none
    else some (record { nation = nation; number = number })

-- `check_phones`
unfoldable pub check_phones : List PhoneNumberDto → Option (List (Option PhoneNumberErrorDto))
check_phones value = error_list (map check_phone value)

module _ (lib : Texts) where
  -- `check_alphabetic`
  unfoldable pub check_alphabetic : String → Option ContactErrorReason
  check_alphabetic value =
      if no_text value
      then some empty_text
      else if not (all_chars lib.is_alphabetic value)
      then some invalid_char
      else none

  abbrev pub check_match : String → Option (ℕ × ℕ) → Option ContactErrorReason
  check_match d none = some invalid_char
  check_match d (some (start, end_)) =
      if start == 0 && byte_len d == end_ then none else some invalid_char

  abbrev pub check_email : String → Option ContactErrorReason
  check_email d = if no_text d then some empty_text else check_match d (lib.find_email d)

  -- `check_emails`
  unfoldable pub check_emails : List String → Option (List (Option ContactErrorReason))
  check_emails value = error_list (map check_email value)

  abbrev pub contact_error :
      ContactDto
      → Option (List (Option ContactErrorReason))
      → Option (List (Option PhoneNumberErrorDto))
      → Option ContactNonFieldErrorReason
      → ContactErrorDto
  contact_error value em ph nonfd = record {
    first_name = check_alphabetic value.first_name;
    last_name = check_alphabetic value.last_name;
    emails = em;
    phones = ph;
    nonfield = nonfd;
    quota_email = none;
    quota_phone = none;
  }

  abbrev pub error_of_contact : ContactDto → ContactErrorDto
  error_of_contact value =
      if is_empty value.emails
      then contact_error value none none (some email_missing)
      else if is_empty value.phones
      then contact_error value none none (some phone_missing)
      else contact_error value (check_emails value.emails) (check_phones value.phones) none

  abbrev pub has_no_error : ContactErrorDto → Bool
  has_no_error e =
      is_none e.first_name
      && is_none e.emails
      && is_none e.phones
      && is_none e.last_name
      && is_none e.nonfield

  -- `TryFrom<ContactDto> for ContactModel`
  unfoldable pub contact_try_from : ContactDto → Result ContactErrorDto ContactModel
  contact_try_from value =
      if has_no_error (error_of_contact value)
      then ok (record {
        first_name = value.first_name;
        last_name = value.last_name;
        emails = value.emails;
        phones = value.phones;
      })
      else err (error_of_contact value)
