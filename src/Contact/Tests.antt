-- ===== src/Contact/Tests.antt =====
-- A run of the checks of a payer.
use Prim.Native.Char.{code}
use e_commerce.Common.{◌&&◌, ◌||◌, some, none, [], ◌∷◌, leb, ◌==◌, if◌then◌else◌, str_eq}
use e_commerce.Common.Text.{Texts}
use e_commerce.Contact.{ContactDto}
use e_commerce.Contact.Address.{PhyAddrDto, tw}
use e_commerce.Contact.Billing.{BillingDto, billing_try_from}
use e_commerce.Contact.Accepts.{AcceptsBilling, billing_try_from-Accepts}

-- Letters, blanks and controls of ASCII, and one address of mail.
abbrev pub ascii : Texts
ascii = record {
  is_alphabetic =
      λ c. (leb 65 (code c) && leb (code c) 90) || (leb 97 (code c) && leb (code c) 122);
  is_whitespace = λ c. code c == 32;
  is_control = λ c. leb (code c) 31 || code c == 127;
  find_email = λ s. if str_eq s "ann@a.tw" then some (0, 8) else none;
}

abbrev pub person : ContactDto
person = record {
  first_name = "Ann";
  last_name = "Lee";
  emails = "ann@a.tw" ∷ [];
  phones = record { nation = 886; number = "912345" } ∷ [];
}

abbrev pub place : PhyAddrDto
place = record {
  country = tw;
  region = "Tai Nan";
  city = "Tai Nan";
  distinct = "East 3";
  street_name = none;
  detail = "No 8";
}

abbrev pub payer : BillingDto
payer = record { contact = person; address = some place }

billing_try_from-Accepts_example : AcceptsBilling ascii payer (billing_try_from ascii payer)
billing_try_from-Accepts_example = billing_try_from-Accepts ascii payer
