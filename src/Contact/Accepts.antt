-- ===== src/Contact/Accepts.antt =====
-- Which persons, addresses and payers are accepted: services/common/rust/src/model/order.rs.
use e_commerce.Common.{
  ℕ, ◌<◌, ◌≤◌, ◌≡◌, refl, ap, ◌↔◌, inl, inr, true, false, ◌||◌, Option, none, some, List, [], ◌∷◌,
  map, String, is_empty, All, arith, Bool-cases,
}
use e_commerce.Common.Outcome.{Result, ok, err}
use e_commerce.Common.Text.{Texts, byte_len, no_text, all_chars, any_char, is_ascii_digit}
use e_commerce.Contact.{
  PhoneNumberDto, ContactDto, ContactModel, ContactErrorDto, contact_dto, is_none, num_err,
  error_list, check_phone, check_phones, check_alphabetic, check_match, check_email, check_emails,
  error_of_contact, has_no_error, contact_try_from,
}
use e_commerce.Contact.Address.{
  PhyAddrDto, PhyAddrModel, PhyAddrErrorDto, address_dto, check_region, contain_ctrl_char,
  check_street, error_of_address, is_correct, address_try_from, some_address, try_from_opt,
}
use e_commerce.Contact.Billing.{
  BillingDto, BillingModel, BillingErrorDto, billing_dto, maybe_address, billing_of,
  billing_try_from,
}

abbrev pub IsPhone : PhoneNumberDto → Type 0
IsPhone d = (0 < d.nation) × (d.nation ≤ 999) × (all_chars is_ascii_digit d.number ≡ true)

-- A list of checks has no error exactly if no check has one.
error_list-none_iff :
    {A E : Type 0} (f : A → Option E) (P : A → Type 0)
    → ((a : A) → (is_none (f a) ≡ true) ↔ P a)
    → (as_ : List A) → (is_none (error_list (map f as_)) ≡ true) ↔ All P as_
error_list-none_iff f P h as_ =
    (λ e. (num_err-zero as_).0 (ground (arith, e)), λ ps. ground (arith, (num_err-zero as_).1 ps))
  where
    num_err-zero : (as_ : List _) → (num_err (map f as_) ≡ 0) ↔ All P as_
    num_err-zero [] = (λ e. tt, λ ps. refl)
    num_err-zero (a ∷ as_) = let (there, back) = num_err-zero as_ in go (f a) (h a) there back
      where
        go :
            (o : Option _)
            → ((is_none o ≡ true) ↔ P a)
            → (num_err (map f as_) ≡ 0 → All P as_)
            → (All P as_ → num_err (map f as_) ≡ 0)
            → (num_err (o ∷ map f as_) ≡ 0) ↔ (P a × All P as_)
        go none (is, si) there back = (λ e. (is refl, there e), λ (p, ps). back ps)
        go (some x) (is, si) there back = (λ e. ground (arith, e), λ (p, ps). ground (arith, si p))

check_phone-none_iff : (d : PhoneNumberDto) → (is_none (check_phone d) ≡ true) ↔ IsPhone d
check_phone-none_iff d = (λ e. ground (arith, e), λ p. ground (arith, p))

module _ (lib : Texts) where
  abbrev pub IsName : String → Type 0
  IsName s = (no_text s ≡ false) × (all_chars lib.is_alphabetic s ≡ true)

  abbrev pub IsEmail : String → Type 0
  IsEmail s = (no_text s ≡ false) × (lib.find_email s ≡ some (0, byte_len s))

  abbrev pub IsContact : ContactDto → Type 0
  IsContact d =
      IsName d.first_name
      × IsName d.last_name
      × (is_empty d.emails ≡ false)
      × (is_empty d.phones ≡ false)
      × All IsEmail d.emails
      × All IsPhone d.phones

  check_alphabetic-none_iff : (s : String) → (is_none (check_alphabetic lib s) ≡ true) ↔ IsName s
  unfolding check_alphabetic
  check_alphabetic-none_iff s = (λ e. ground (arith, e), λ p. ground (arith, p))

  check_match-none_iff :
      (s : String) (o : Option (ℕ × ℕ))
      → (is_none (check_match lib s o) ≡ true) ↔ (o ≡ some (0, byte_len s))
  check_match-none_iff s none = (λ e. ground (arith, e), λ p. ground (arith, p))
  check_match-none_iff s (some (a, b)) = (
    λ e.
        let pa : a ≡ 0 = ground (arith, e) in
        let pb : b ≡ byte_len s = ground (arith, e) in rw (pa, pb) refl,
    λ p. ground (arith, p),
  )

  check_email-none_iff : (s : String) → (is_none (check_email lib s) ≡ true) ↔ IsEmail s
  check_email-none_iff s =
      let (there, back) = check_match-none_iff s (lib.find_email s) in
      elim (Bool-cases (no_text s)) [
        | inl e ↦ (λ h. ground (arith, h, e), λ (p, q). ground (arith, p, e))
        | inr e ↦ (λ h. (e, there (rw e at h)), λ (p, q). rw e (back q))
      ]

  IsContact-none_iff :
      (d : ContactDto) → (has_no_error lib (error_of_contact lib d) ≡ true) ↔ IsContact d
  unfolding check_emails check_phones
  IsContact-none_iff d =
      let (f1, f2) = check_alphabetic-none_iff d.first_name in
      let (l1, l2) = check_alphabetic-none_iff d.last_name in
      let (e1, e2) = error_list-none_iff (check_email lib) IsEmail check_email-none_iff d.emails in
      let (p1, p2) = error_list-none_iff check_phone IsPhone check_phone-none_iff d.phones in
      elim (Bool-cases (is_empty d.emails)) [
        | inl e ↦ (λ h. ground (arith, h, e), λ (f, l, a, b, es, ps). ground (arith, a, e))
        | inr e ↦ elim (Bool-cases (is_empty d.phones)) [
          | inl p ↦ (λ h. ground (arith, h, e, p), λ (f, l, a, b, es, ps). ground (arith, b, p))
          | inr p ↦ (
            λ h. (
              f1 (ground (arith, rw (e, p) at h)),
              l1 (ground (arith, rw (e, p) at h)),
              e,
              p,
              e1 (ground (arith, rw (e, p) at h)),
              p1 (ground (arith, rw (e, p) at h)),
            ),
            λ (f, l, a, b, es, ps). rw (e, p) (rw (f2 f, l2 l, e2 es, p2 ps) refl),
          )
        ]
      ]

  -- What a person is accepted as.
  abbrev pub AcceptsContact : ContactDto → Result ContactErrorDto ContactModel → Type 0
  AcceptsContact d (ok m) = IsContact d × (contact_dto m ≡ d)
  AcceptsContact d (err e) = ¬ IsContact d

  pub contact_try_from-Accepts : (d : ContactDto) → AcceptsContact d (contact_try_from lib d)
  unfolding contact_try_from contact_dto
  contact_try_from-Accepts d =
      let (there, back) = IsContact-none_iff d in
      elim (Bool-cases (has_no_error lib (error_of_contact lib d))) [
        | inl e ↦ rw e (there e, refl)
        | inr e ↦ rw e (λ h. ground (arith, e, back h))
      ]

  abbrev pub IsRegion : String → Type 0
  IsRegion s =
      (no_text s ≡ false) × (all_chars (λ c. lib.is_alphabetic c || lib.is_whitespace c) s ≡ true)

  abbrev pub IsDetail : String → Type 0
  IsDetail s = (no_text s ≡ false) × (any_char lib.is_control s ≡ false)

  abbrev pub IsStreet : Option String → Type 0
  IsStreet none = Unit
  IsStreet (some s) = IsDetail s

  abbrev pub IsAddress : PhyAddrDto → Type 0
  IsAddress d =
      IsRegion d.region
      × IsRegion d.city
      × IsDetail d.distinct
      × IsStreet d.street_name
      × IsDetail d.detail

  check_region-none_iff : (s : String) → (is_none (check_region lib s) ≡ true) ↔ IsRegion s
  unfolding check_region
  check_region-none_iff s = (λ e. ground (arith, e), λ p. ground (arith, p))

  contain_ctrl_char-none_iff :
      (s : String) → (is_none (contain_ctrl_char lib s) ≡ true) ↔ IsDetail s
  unfolding contain_ctrl_char
  contain_ctrl_char-none_iff s = (λ e. ground (arith, e), λ p. ground (arith, p))

  check_street-none_iff : (o : Option String) → (is_none (check_street lib o) ≡ true) ↔ IsStreet o
  check_street-none_iff none = (λ e. tt, λ p. refl)
  check_street-none_iff (some s) = contain_ctrl_char-none_iff s

  abbrev pub AcceptsAddress : PhyAddrDto → Result PhyAddrErrorDto PhyAddrModel → Type 0
  AcceptsAddress d (ok m) = IsAddress d × (address_dto m ≡ d)
  AcceptsAddress d (err e) = ¬ IsAddress d

  pub address_try_from-Accepts : (d : PhyAddrDto) → AcceptsAddress d (address_try_from lib d)
  unfolding address_try_from address_dto
  address_try_from-Accepts d =
      let (r1, r2) = check_region-none_iff d.region in
      let (c1, c2) = check_region-none_iff d.city in
      let (d1, d2) = contain_ctrl_char-none_iff d.distinct in
      let (s1, s2) = check_street-none_iff d.street_name in
      let (e1, e2) = contain_ctrl_char-none_iff d.detail in
      elim (Bool-cases (is_correct lib (error_of_address lib d))) [
        | inl e ↦ rw e (
          (
            r1 (ground (arith, e)),
            c1 (ground (arith, e)),
            d1 (ground (arith, e)),
            s1 (ground (arith, e)),
            e1 (ground (arith, e)),
          ),
          refl,
        )
        | inr e ↦
            rw e (λ (r, c, dd, s, de). ground (arith, rw (r2 r, c2 c, d2 dd, s2 s, e2 de) at e))
      ]

  -- An address may be left out.
  abbrev pub IsMaybeAddress : Option PhyAddrDto → Type 0
  IsMaybeAddress none = Unit
  IsMaybeAddress (some d) = IsAddress d

  abbrev pub AcceptsMaybe :
      Option PhyAddrDto → Result PhyAddrErrorDto (Option PhyAddrModel) → Type 0
  AcceptsMaybe o (ok m) = IsMaybeAddress o × (maybe_address m ≡ o)
  AcceptsMaybe o (err e) = ¬ IsMaybeAddress o

  pub try_from_opt-Accepts : (o : Option PhyAddrDto) → AcceptsMaybe o (try_from_opt lib o)
  unfolding try_from_opt
  try_from_opt-Accepts none = (tt, refl)
  try_from_opt-Accepts (some d) = go (address_try_from lib d) (address_try_from-Accepts d)
    where
      go :
          (r : Result PhyAddrErrorDto PhyAddrModel)
          → AcceptsAddress d r
          → AcceptsMaybe (some d) (some_address lib r)
      go (ok m) (is, same) = (is, ap some same)
      go (err e) h = h

  -- What a payer is accepted as. A refusal names the person or the address, or both, and just those
  -- that are not correct.
  abbrev IsNamed : {E : Type 0} → Type 0 → Option E → Type 0
  IsNamed P none = P
  IsNamed P (some e) = ¬ P

  pub AcceptsBilling : BillingDto → Result BillingErrorDto BillingModel → Type 0
  AcceptsBilling d (ok m) = IsContact d.contact × IsMaybeAddress d.address × (billing_dto m ≡ d)
  AcceptsBilling d (err e) =
      IsNamed (IsContact d.contact) e.contact
      × IsNamed (IsMaybeAddress d.address) e.address
      × ¬ (IsContact d.contact × IsMaybeAddress d.address)

  -- A payer that is accepted is a correct person with a correct address, if one is given, and is
  -- given back unchanged when it is turned into the DTO again. A payer that is refused is not; the
  -- error names the person exactly if the person is not correct, and the address exactly if the
  -- address is not.
  pub billing_try_from-Accepts : (d : BillingDto) → AcceptsBilling d (billing_try_from lib d)
  unfolding billing_try_from billing_dto AcceptsBilling
  billing_try_from-Accepts d =
      go (contact_try_from lib d.contact) (try_from_opt lib d.address)
        (contact_try_from-Accepts d.contact) (try_from_opt-Accepts d.address)
    where
      go :
          (c : Result ContactErrorDto ContactModel)
          (a : Result PhyAddrErrorDto (Option PhyAddrModel))
          → AcceptsContact d.contact c
          → AcceptsMaybe d.address a
          → AcceptsBilling d (billing_of c a)
      go (ok c) (ok a) (is, same) (is', same') = (is, is', rw (same, same') refl)
      go (ok c) (err x) (is, same) bad = (is, bad, λ (p, q). bad q)
      go (err x) (ok a) bad (is', same') = (bad, is', λ (p, q). bad p)
      go (err x) (err y) bad bad' = (bad, bad', λ (p, q). bad p)
