-- ===== src/Payment/Charge/Token/Extract.antt =====
-- Reading fields of bits: `ChargeToken::extract_bitvec` of services/payment/src/model/charge.rs.
use e_commerce.Common.{
  ℕ, zero, suc, ◌+◌, ◌-◌, ◌*◌, ◌/◌, ◌%◌, ◌^◌, ◌≤◌, ◌<◌, ◌≡◌, refl, sym, ap, ◌∙◌, inl, inr, min,
  ◌==◌, List, [], ◌∷◌, ◌≢◌, length, sum_of, String, arith, zero-or-pos, Bool-cases, eqb_iff,
}
use native.Mathlib.Nat.{mod-eq_of_lt}
use e_commerce.Common.Bits.{bit_field}
use e_commerce.Common.Outcome.{Outcome, returned, Result, ok, err}
use e_commerce.Order.Price.{AppErrorCode, data_corruption}
use e_commerce.Payment.Charge.Token.{
  Cursor, index, take_bits, extract_chunk, extract_loop, extract_fields, extract_bitvec, token_of,
  fields_len, decode, decode_fields, Calendar,
}

index-returns : (bs : List ℕ) (i : ℕ) → i < length bs → (b : ℕ) × (index bs i ≡ returned b)
index-returns [] i lt = absurd (omega arith)
index-returns (b ∷ bs) zero lt = (b, refl)
index-returns (b ∷ bs) (suc i) lt = index-returns bs i (omega arith)

-- A loop with bits left to read ends.
pub Ends : Cursor → Outcome Cursor → Type 0
Ends c r =
    (c' : Cursor) × (r ≡ returned c')
    × (c'.nbits_remaining ≡ 0)
    × (c'.bit_idx ≡ c.bit_idx + c.nbits_remaining)

extract_chunk-advances :
    (bs : List ℕ) (c : Cursor)
    → 0 < c.nbits_remaining
    → c.bit_idx + c.nbits_remaining ≤ 8 * length bs
    → (c' : Cursor) × (extract_chunk bs c ≡ returned c')
      × (c'.bit_idx + c'.nbits_remaining ≡ c.bit_idx + c.nbits_remaining)
      × (c'.nbits_remaining < c.nbits_remaining)
unfolding extract_chunk
extract_chunk-advances bs c pos fits =
    let o = index-returns bs (c.bit_idx / 8) (omega arith) in
    (take_bits c o.0, rw o.1, omega arith, omega arith)

pub extract_loop-step :
    (fuel : ℕ) (bs : List ℕ) (c c' : Cursor)
    → 0 < c.nbits_remaining
    → extract_chunk bs c ≡ returned c'
    → extract_loop (suc fuel) bs c ≡ extract_loop fuel bs c'
unfolding extract_loop
extract_loop-step fuel bs c c' pos e = ground (arith, e)

pub extract_loop-Ends :
    (fuel : ℕ) (bs : List ℕ) (c : Cursor)
    → c.nbits_remaining ≤ fuel
    → c.bit_idx + c.nbits_remaining ≤ 8 * length bs
    → Ends c (extract_loop fuel bs c)
unfolding extract_loop Ends
extract_loop-Ends zero bs c le fits = (c, refl, omega arith, omega arith)
extract_loop-Ends (suc fuel) bs c le fits = elim (zero-or-pos c.nbits_remaining) [
  | inl e ↦ (c, ground arith, e, omega arith)
  | inr pos ↦
      let (c', e, moved, less) = extract_chunk-advances bs c pos fits in
      let (c2, e2, done, at) = extract_loop-Ends fuel bs c' (omega arith) (omega arith) in
      (c2, extract_loop-step fuel bs c c' pos e ∙ e2, done, omega arith)
]

-- What a turn reads: the next bits of the byte, below those read before.
pub take_bits-value :
    (b v r i n : ℕ)
    → b < 256
    → n ≡ min r (8 - i % 8)
    → 0 < n
    → v * 2 ^ n < 2 ^ 32
    → take_bits (record { value = v; nbits_remaining = r; bit_idx = i }) b ≡ record {
      value = v * 2 ^ n + b / 2 ^ (8 - i % 8 - n) % 2 ^ n;
      nbits_remaining = r - n;
      bit_idx = i + n;
    }
take_bits-value b v r i n hb e pos fits =
    let low : n % 32 ≡ n = omega arith in
    let small : (8 - i % 8 - n) % 8 ≡ 8 - i % 8 - n = omega arith in
    rw (sym e, low, mod-eq_of_lt fits, small, bit_field (8 - i % 8 - n) n v b (omega arith) hb)

-- One turn of the loop, with the value afterwards in another form.
pub extract_loop-reads :
    (bs : List ℕ) (fuel v r i n b w : ℕ)
    → index bs (i / 8) ≡ returned b
    → (n ≡ min r (8 - i % 8)) × (0 < n)
    → (b < 256) × (v * 2 ^ n < 2 ^ 32) × (v * 2 ^ n + b / 2 ^ (8 - i % 8 - n) % 2 ^ n ≡ w)
    → extract_loop (suc fuel) bs (record { value = v; nbits_remaining = r; bit_idx = i })
      ≡ extract_loop fuel bs (record { value = w; nbits_remaining = r - n; bit_idx = i + n })
unfolding extract_chunk
extract_loop-reads bs fuel v r i n b w e (en, pos) (hb, fits, ew) =
    extract_loop-step fuel bs _ _ (omega arith) (rw e refl)
    ∙ ap (extract_loop fuel bs) (
        take_bits-value b v r i n hb en pos fits
        ∙ ap (λ (x : ℕ). record { value = x; nbits_remaining = r - n; bit_idx = i + n }) ew)

pub extract_loop-done :
    (bs : List ℕ) (fuel v i : ℕ)
    → extract_loop fuel bs (record { value = v; nbits_remaining = 0; bit_idx = i })
      ≡ returned (record { value = v; nbits_remaining = 0; bit_idx = i })
unfolding extract_loop
extract_loop-done bs zero v i = refl
extract_loop-done bs (suc fuel) v i = refl

-- Reading a list of fields within the bytes gives a value for each.
Yields : List ℕ → Outcome (List ℕ) → Type 0
Yields lens r = (vs : List ℕ) × (r ≡ returned vs) × (length vs ≡ length lens)

extract_fields-Yields :
    (bs : List ℕ) (i : ℕ) (lens : List ℕ)
    → i + sum_of (λ n. n) lens ≤ 8 * length bs
    → Yields lens (extract_fields bs i lens)
unfolding Yields Ends
extract_fields-Yields bs i [] fits = ([], refl, refl)
extract_fields-Yields bs i (len ∷ lens) fits =
    let start : Cursor = record { value = 0; nbits_remaining = len; bit_idx = i } in
    let (c, e, done, at) = extract_loop-Ends len bs start (omega arith) (omega arith) in
    let (vs, es, n) = extract_fields-Yields bs c.bit_idx lens (omega arith) in
    (c.value ∷ vs, rw (e, es), ap suc n)

-- What becomes of bytes that are received as a token.
pub EndsIn : (T : Type 0) ⦃k : Calendar T⦄ → List ℕ → Result AppErrorCode (List ℕ) → Type 0
EndsIn T v (ok token) =
    (length v ≡ 9) × (token ≡ v) × ((r : Result String (ℕ × T)) × (decode token ≡ returned r))
EndsIn T v (err e) = (length v ≢ 9) × (e ≡ data_corruption)

decoded-returns :
    (T : Type 0) ⦃k : Calendar T⦄ (vs : List ℕ)
    → length vs ≡ 7
    → (r : Result String (ℕ × T)) × (decode_fields vs ≡ returned r)
decoded-returns T (u ∷ y ∷ mo ∷ d ∷ h ∷ mi ∷ s ∷ []) e = (_, refl)
decoded-returns T [] e = absurd (omega arith)
decoded-returns T (_ ∷ []) e = absurd (omega arith)
decoded-returns T (_ ∷ _ ∷ []) e = absurd (omega arith)
decoded-returns T (_ ∷ _ ∷ _ ∷ []) e = absurd (omega arith)
decoded-returns T (_ ∷ _ ∷ _ ∷ _ ∷ []) e = absurd (omega arith)
decoded-returns T (_ ∷ _ ∷ _ ∷ _ ∷ _ ∷ []) e = absurd (omega arith)
decoded-returns T (_ ∷ _ ∷ _ ∷ _ ∷ _ ∷ _ ∷ []) e = absurd (omega arith)
decoded-returns T (_ ∷ _ ∷ _ ∷ _ ∷ _ ∷ _ ∷ _ ∷ _ ∷ vs) e = absurd (omega arith)

decode-returns :
    (T : Type 0) ⦃k : Calendar T⦄ (v : List ℕ)
    → length v ≡ 9
    → (r : Result String (ℕ × T)) × (decode v ≡ returned r)
unfolding decode extract_bitvec Yields
decode-returns T v n =
    let (vs, e, seven) = extract_fields-Yields v 0 fields_len (omega arith) in
    let (r, er) = decoded-returns T vs seven in (r, rw e er)

-- Bytes that are received as a token are refused as corrupt data exactly when they are not 9; if
-- they are taken, the loops over their bits end within their fuel, no index is out of range, and
-- decoding returns a result.
pub token_of-EndsIn : (T : Type 0) ⦃k : Calendar T⦄ (v : List ℕ) → EndsIn T v (token_of v)
unfolding EndsIn token_of
token_of-EndsIn T v = elim (Bool-cases (length v == 9)) [
  | inl e ↦
      let n : length v ≡ 9 = (eqb_iff (length v) 9).0 e in rw e (n, refl, decode-returns T v n)
  | inr e ↦ rw e (ground arith, refl)
]
