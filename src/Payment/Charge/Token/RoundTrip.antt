-- ===== src/Payment/Charge/Token/RoundTrip.antt =====
-- A token and back: `ChargeToken::encode` and `decode` of services/payment/src/model/charge.rs.
use e_commerce.Common.{
  ℕ, ◌+◌, ◌*◌, ◌/◌, ◌%◌, ◌^◌, ◌≤◌, ◌<◌, ◌≡◌, length, refl, ◌∙◌, true, List, [], ◌∷◌, arith,
}
use e_commerce.Common.Outcome.{Outcome, returned, ok}
use e_commerce.Payment.Charge.Token.{
  Calendar, single, extract_field, extract_bitvec, fields_len, encode, decode,
}
use e_commerce.Payment.Charge.Token.Pack.{FitFields, packed, compact_bitvec-packed}
use e_commerce.Payment.Charge.Token.Extract.{extract_loop-reads, extract_loop-done}

module _ (u y mo d h mi s : ℕ) (fit : FitFields u y mo d h mi s) where
  abbrev bytes : List ℕ
  bytes = packed u y mo d h mi s

  Reads : ℕ → ℕ → ℕ → Type 0
  Reads i len x =
      extract_field bytes i len
      ≡ returned (record { value = x; nbits_remaining = 0; bit_idx = i + len })

  owner_field : Reads 0 32 u
  unfolding Reads
  owner_field =
      extract_loop-reads bytes 31 0 32 0 8 (u / 16_777_216) (u / 16_777_216) refl (ground arith)
        (ground arith)
      ∙ extract_loop-reads bytes 30 (u / 16_777_216) 24 8 8 (u / 65536 % 256) (u / 65536) refl
          (ground arith) (ground arith)
      ∙ extract_loop-reads bytes 29 (u / 65536) 16 16 8 (u / 256 % 256) (u / 256) refl
          (ground arith) (ground arith)
      ∙ extract_loop-reads bytes 28 (u / 256) 8 24 8 (u % 256) u refl (ground arith) (ground arith)
      ∙ extract_loop-done bytes 28 u 32

  year_field : Reads 32 14 y
  unfolding Reads
  year_field =
      extract_loop-reads bytes 13 0 14 32 8 (y / 64) (y / 64) refl (ground arith) (ground arith)
      ∙ extract_loop-reads bytes 12 (y / 64) 6 40 6 (y % 64 * 4 + mo / 4) y refl (ground arith)
          (ground arith)
      ∙ extract_loop-done bytes 12 y 46

  month_field : Reads 46 4 mo
  unfolding Reads
  month_field =
      extract_loop-reads bytes 3 0 4 46 2 (y % 64 * 4 + mo / 4) (mo / 4) refl (ground arith)
        (ground arith)
      ∙ extract_loop-reads bytes 2 (mo / 4) 2 48 2 ((mo % 4 * 32 + d) * 2 + h / 16) mo refl
          (ground arith) (ground arith)
      ∙ extract_loop-done bytes 2 mo 50

  day_field : Reads 50 5 d
  unfolding Reads
  day_field =
      extract_loop-reads bytes 4 0 5 50 5 ((mo % 4 * 32 + d) * 2 + h / 16) d refl (ground arith)
        (ground arith)
      ∙ extract_loop-done bytes 4 d 55

  hour_field : Reads 55 5 h
  unfolding Reads
  hour_field =
      extract_loop-reads bytes 4 0 5 55 1 ((mo % 4 * 32 + d) * 2 + h / 16) (h / 16) refl
        (ground arith) (ground arith)
      ∙ extract_loop-reads bytes 3 (h / 16) 4 56 4 (h % 16 * 16 + mi / 4) h refl (ground arith)
          (ground arith)
      ∙ extract_loop-done bytes 3 h 60

  minute_field : Reads 60 6 mi
  unfolding Reads
  minute_field =
      extract_loop-reads bytes 5 0 6 60 4 (h % 16 * 16 + mi / 4) (mi / 4) refl (ground arith)
        (ground arith)
      ∙ extract_loop-reads bytes 4 (mi / 4) 2 64 2 (mi % 4 * 64 + s) mi refl (ground arith)
          (ground arith)
      ∙ extract_loop-done bytes 4 mi 66

  second_field : Reads 66 6 s
  unfolding Reads
  second_field =
      extract_loop-reads bytes 5 0 6 66 6 (mi % 4 * 64 + s) s refl (ground arith) (ground arith)
      ∙ extract_loop-done bytes 5 s 72

  extract_bitvec-packed :
      extract_bitvec bytes fields_len ≡ returned (u ∷ y ∷ mo ∷ d ∷ h ∷ mi ∷ s ∷ [])
  unfolding extract_bitvec Reads
  extract_bitvec-packed =
      rw (owner_field, year_field, month_field, day_field, hour_field, minute_field, second_field)

-- What chrono documents of a calendar: the ranges of its fields, and that a date of whole seconds
-- is found again by them.
pub record IsCalendar (T : Type 0) ⦃k : Calendar T⦄ : Type 0 where
  pub month_le : (t : T) → k.month t ≤ 12
  pub day_le : (t : T) → k.day t ≤ 31
  pub hour_le : (t : T) → k.hour t ≤ 23
  pub minute_le : (t : T) → k.minute t ≤ 59
  pub second_le : (t : T) → k.second t ≤ 59
  pub found_again :
      (t : T)
      → (k.year_ce t).0 ≡ true
      → k.nanosecond t ≡ 0
      → k.with_ymd_and_hms
          (k.year_ce t).1
          (k.month t)
          (k.day t)
          (k.hour t)
          (k.minute t)
          (k.second t)
        ≡ single t

module _ {T : Type 0} ⦃k : Calendar T⦄ where
  unfoldable pub RoundTrips : ℕ → T → Outcome (List ℕ) → Type 0
  RoundTrips owner t r =
      (token : List ℕ) × (r ≡ returned token)
      × (length token ≡ 9)
      × (decode token ≡ returned (ok (owner, t)))

  -- For a calendar whose fields have their ranges and that finds a date of whole seconds again by
  -- its fields, a buyer id of 32 bits, and a date of whole seconds in a year of the common era
  -- below 2 ^ 14: encoding gives a token of 9 bytes, and decoding it gives that buyer and that
  -- date, neither with a panic.
  pub encode-RoundTrips :
      IsCalendar T
      → (owner : ℕ) (t : T) → owner < 2 ^ 32
      → (k.year_ce t).0 ≡ true
      → (k.year_ce t).1 < 2 ^ 14
      → k.nanosecond t ≡ 0
      → RoundTrips owner t (encode owner t)
  unfolding RoundTrips encode decode
  encode-RoundTrips cal owner t ho ce hy whole =
      let y = (k.year_ce t).1 in
      let mo = k.month t in
      let d = k.day t in
      let h = k.hour t in
      let mi = k.minute t in
      let s = k.second t in
      let hmo = cal.month_le t in
      let hd = cal.day_le t in
      let hh = cal.hour_le t in
      let hmi = cal.minute_le t in
      let hs = cal.second_le t in
      let fit : FitFields owner y mo d h mi s =
        (ho, hy, omega arith, omega arith, omega arith, omega arith, omega arith) in
      (
        packed owner y mo d h mi s,
        rw (compact_bitvec-packed owner y mo d h mi s fit),
        refl,
        rw (extract_bitvec-packed owner y mo d h mi s fit, cal.found_again t ce whole),
      )
