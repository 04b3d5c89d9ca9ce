-- ===== src/Order/Shipping.antt =====
-- Where an order is sent: `ShippingOptionModel` and `ShippingModel` of
-- services/order/src/model/order.rs.
use e_commerce.Common.{
  ℕ, ◌<◌, ◌≡◌, refl, ap, ◌∙◌, inl, inr, Bool, true, false, ◌||◌, Option, none, some, List, [], ◌∷◌,
  map, length, ◌==◌, if◌then◌else◌, All, arith, Bool-cases,
}
use e_commerce.Common.Outcome.{Outcome, returned, panicked, ◌>>=◌, Result, ok, err}
use e_commerce.Common.Text.{Texts}
use e_commerce.Contact.{ContactDto, ContactModel, ContactErrorDto, contact_dto, contact_try_from}
use e_commerce.Contact.Address.{PhyAddrDto, PhyAddrModel, PhyAddrErrorDto, try_from_opt}
use e_commerce.Contact.Billing.{maybe_address, err_of}
use e_commerce.Contact.Accepts.{
  IsContact, IsMaybeAddress, AcceptsContact, AcceptsMaybe, contact_try_from-Accepts,
  try_from_opt-Accepts,
}

-- services/order/src/api/dto.rs
pub data ShippingMethod : Type 0 where
  ups fed_ex black_cat_express unknown_method : ShippingMethod

pub record ShippingOptionDto : Type 0 where
  pub seller_id : ℕ
  pub method : ShippingMethod

pub record ShippingDto : Type 0 where
  pub contact : ContactDto
  pub address : Option PhyAddrDto
  pub option : List ShippingOptionDto

-- services/order/src/api/web/dto.rs
pub data ShipOptionSellerErrorReason : Type 0 where
  no_seller seller_not_exist seller_not_support : ShipOptionSellerErrorReason

pub data ShipOptionMethodErrorReason : Type 0 where
  no_method method_not_support : ShipOptionMethodErrorReason

pub record ShippingOptionErrorDto : Type 0 where
  pub seller_id : Option ShipOptionSellerErrorReason
  pub method : Option ShipOptionMethodErrorReason

pub record ShippingErrorDto : Type 0 where
  pub contact : Option ContactErrorDto
  pub address : Option PhyAddrErrorDto
  pub option : Option (List (Option ShippingOptionErrorDto))

pub record ShippingOptionModel : Type 0 where
  pub seller_id : ℕ
  pub method : ShippingMethod

pub record ShippingModel : Type 0 where
  pub contact : ContactModel
  pub address : Option PhyAddrModel
  pub option : List ShippingOptionModel

-- `From<ShippingOptionModel> for ShippingOptionDto` and `From<ShippingModel> for ShippingDto`
abbrev pub option_dto : ShippingOptionModel → ShippingOptionDto
option_dto m = record { seller_id = m.seller_id; method = m.method }

unfoldable pub shipping_dto : ShippingModel → ShippingDto
shipping_dto m = record {
  contact = contact_dto m.contact;
  address = maybe_address m.address;
  option = map option_dto m.option;
}

-- `ShippingOptionModel::try_from`
abbrev pub option_try_from : ShippingOptionDto → Result ShippingOptionErrorDto ShippingOptionModel
option_try_from value =
    if value.seller_id == 0
    then err (record { method = none; seller_id = some no_seller })
    else ok (record { seller_id = value.seller_id; method = value.method })

abbrev pub is_err : {E A : Type 0} → Result E A → Bool
is_err (ok a) = false
is_err (err e) = true

abbrev pub any_err : {E A : Type 0} → List (Result E A) → Bool
any_err [] = false
any_err (r ∷ rs) = is_err r || any_err rs

-- the items of a list without errors, with the `panic!` on one
abbrev pub all_ok : {E A : Type 0} → List (Result E A) → Outcome (List A)
all_ok [] = returned []
all_ok (ok a ∷ rs) = all_ok rs >>= λ as_. returned (a ∷ as_)
all_ok (err e ∷ rs) = panicked

abbrev pub ok_items : {E A : Type 0} → Outcome (List A) → Outcome (Result E (List A))
ok_items o = o >>= λ as_. returned (ok as_)

-- `ShippingOptionModel::try_from_vec`
unfoldable pub try_from_vec :
    List ShippingOptionDto
    → Outcome (Result (List (Option ShippingOptionErrorDto)) (List ShippingOptionModel))
try_from_vec value =
    let results = map option_try_from value in
    if any_err results then returned (err (map err_of results)) else ok_items (all_ok results)

abbrev pub shipping_of :
    Result ContactErrorDto ContactModel
    → Result PhyAddrErrorDto (Option PhyAddrModel)
    → Result (List (Option ShippingOptionErrorDto)) (List ShippingOptionModel)
    → Result ShippingErrorDto ShippingModel
shipping_of (ok contact) (ok maybe_addr) (ok sh_opts) =
    ok (record { contact = contact; address = maybe_addr; option = sh_opts })
shipping_of (ok contact) (ok maybe_addr) (err e) =
    err (record { contact = none; address = none; option = some e })
shipping_of (ok contact) (err e) o =
    err (record { contact = none; address = some e; option = err_of o })
shipping_of (err e) a o = err (record { contact = some e; address = err_of a; option = err_of o })

-- `TryFrom<ShippingDto> for ShippingModel`
unfoldable pub shipping_try_from :
    Texts → ShippingDto → Outcome (Result ShippingErrorDto ShippingModel)
shipping_try_from lib value = try_from_vec value.option >>= λ o.
    returned (shipping_of (contact_try_from lib value.contact) (try_from_opt lib value.address) o)

abbrev pub HasSeller : ShippingOptionDto → Type 0
HasSeller d = 0 < d.seller_id

abbrev pub AcceptsOptions :
    List ShippingOptionDto
    → Outcome (Result (List (Option ShippingOptionErrorDto)) (List ShippingOptionModel))
    → Type 0
AcceptsOptions ds panicked = ⊥
AcceptsOptions ds (returned (ok ms)) = All HasSeller ds × (map option_dto ms ≡ ds)
AcceptsOptions ds (returned (err es)) = (length es ≡ length ds) × ¬ All HasSeller ds

length-map : {A B : Type 0} (f : A → B) (as_ : List A) → length (map f as_) ≡ length as_
length-map f [] = refl
length-map f (a ∷ as_) = omega (arith, length-map f as_)

options-good :
    (ds : List ShippingOptionDto)
    → any_err (map option_try_from ds) ≡ false
    → (ms : List ShippingOptionModel) × (all_ok (map option_try_from ds) ≡ returned ms)
      × All HasSeller ds
      × (map option_dto ms ≡ ds)
options-good [] h = ([], refl, tt, refl)
options-good (d ∷ ds) h = elim (Bool-cases (d.seller_id == 0)) [
  | inl e ↦ ground (arith, e, h)
  | inr e ↦
      let (ms, good, all, same) = options-good ds (rw e at h) in
      (
        record { seller_id = d.seller_id; method = d.method } ∷ ms,
        rw e (rw good refl),
        (ground (arith, e), all),
        ap (λ (xs : List ShippingOptionDto). d ∷ xs) same,
      )
]

options-bad :
    (ds : List ShippingOptionDto) → any_err (map option_try_from ds) ≡ true → ¬ All HasSeller ds
options-bad [] h = λ p. ground (arith, h)
options-bad (d ∷ ds) h = λ (p, ps). elim (Bool-cases (d.seller_id == 0)) [
  | inl e ↦ ground (arith, e, p)
  | inr e ↦ options-bad ds (rw e at h) ps
]

try_from_vec-Accepts : (ds : List ShippingOptionDto) → AcceptsOptions ds (try_from_vec ds)
unfolding try_from_vec
try_from_vec-Accepts ds = elim (Bool-cases (any_err (map option_try_from ds))) [
  | inl e ↦
      rw e (
        length-map err_of (map option_try_from ds) ∙ length-map option_try_from ds,
        options-bad ds e,
      )
  | inr e ↦ let (ms, good, all, same) = options-good ds e in rw (e, good) (all, same)
]

-- What a recipient is accepted as.
unfoldable pub AcceptsShipping :
    Texts → ShippingDto → Outcome (Result ShippingErrorDto ShippingModel) → Type 0
AcceptsShipping lib d panicked = ⊥
AcceptsShipping lib d (returned (ok m)) =
    IsContact lib d.contact
    × IsMaybeAddress lib d.address
    × All HasSeller d.option
    × (shipping_dto m ≡ d)
AcceptsShipping lib d (returned (err e)) =
    ¬ (IsContact lib d.contact × IsMaybeAddress lib d.address × All HasSeller d.option)

-- The checks of a recipient never panic. A recipient that is accepted has a correct person, a
-- correct address, if one is given, and a seller in each shipping option, and is given back
-- unchanged when it is turned into the DTO again. One that is refused has not.
pub shipping_try_from-Accepts :
    (lib : Texts) (d : ShippingDto) → AcceptsShipping lib d (shipping_try_from lib d)
unfolding shipping_try_from shipping_dto AcceptsShipping
shipping_try_from-Accepts lib d =
    go (contact_try_from lib d.contact) (try_from_opt lib d.address) (try_from_vec d.option)
      (contact_try_from-Accepts lib d.contact) (try_from_opt-Accepts lib d.address)
      (try_from_vec-Accepts d.option)
  where
    go :
        (c : Result ContactErrorDto ContactModel) (a : Result PhyAddrErrorDto (Option PhyAddrModel))
        (o : Outcome (Result (List (Option ShippingOptionErrorDto)) (List ShippingOptionModel)))
        → AcceptsContact lib d.contact c
        → AcceptsMaybe lib d.address a
        → AcceptsOptions d.option o
        → AcceptsShipping lib d (o >>= λ x. returned (shipping_of c a x))
    go c a panicked hc ha ho = ho
    go (ok c) (ok a) (returned (ok os)) (is, e) (is', e') (all, e'') =
        (is, is', all, rw (e, e', e'') refl)
    go (ok c) (ok a) (returned (err x)) hc ha (n, bad) = λ (p, q, r). bad r
    go (ok c) (err x) (returned o) hc bad ho = λ (p, q, r). bad q
    go (err x) a (returned o) bad ha ho = λ (p, q, r). bad p
