-- ===== src/Payment/Charge/Token.antt =====
-- The idempotency token of a charge: `ChargeToken` of services/payment/src/model/charge.rs. It packs
-- the buyer and the time of creation into 9 bytes, field by field from the highest bit on.
pub mod Pack
pub mod Extract
pub mod RoundTrip
use Prim.Native.Nat.{bit_and, bit_or}
use Prim.Native.String.{◌++◌ as ◌++ₛ◌, slice}
use e_commerce.Common.{
  ℕ, zero, suc, ◌+◌, ◌-◌, ◌*◌, ◌/◌, ◌%◌, ◌^◌, min, Bool, true, false, if◌then◌else◌, ltb, leb, ◌==◌,
  not, List, [], ◌∷◌, ◌++◌, Option, none, some, length, sum_of, String,
}
use e_commerce.Common.Outcome.{Outcome, returned, panicked, ◌>>=◌, ◌>>◌, assert, Result, ok, err}
use e_commerce.Order.Price.{AppErrorCode, data_corruption}

-- What the token uses of chrono's `Datelike`, `Timelike` and `TimeZone`.
pub data LocalResult (T : Type 0) : Type 0 where
  single : T → LocalResult T
  ambiguous : T → T → LocalResult T
  none_local : LocalResult T

pub record Calendar (T : Type 0) : Type 0 where
  pub year_ce : T → Bool × ℕ
  pub month : T → ℕ
  pub day : T → ℕ
  pub hour : T → ℕ
  pub minute : T → ℕ
  pub second : T → ℕ
  pub nanosecond : T → ℕ
  -- `Utc.with_ymd_and_hms(year, month, day, hour, minute, second)`, at years from 0 on
  pub with_ymd_and_hms : ℕ → ℕ → ℕ → ℕ → ℕ → ℕ → LocalResult T

-- `token_inner`
abbrev pub nbytes : ℕ
nbytes = 9

abbrev pub fields_len : List ℕ
fields_len = 32 ∷ 14 ∷ 4 ∷ 5 ∷ 5 ∷ 6 ∷ 6 ∷ []

-- `v << n` and `v >> n` on `u32`: in a release build the number of places counts modulo 32
abbrev pub shl32 : ℕ → ℕ → ℕ
shl32 v n = v * 2 ^ (n % 32) % 2 ^ 32

abbrev pub shr32 : ℕ → ℕ → ℕ
shr32 v n = v / 2 ^ (n % 32)

-- the same on `u8`
abbrev pub shl8 : ℕ → ℕ → ℕ
shl8 v n = v * 2 ^ (n % 8) % 256

abbrev pub shr8 : ℕ → ℕ → ℕ
shr8 v n = v / 2 ^ (n % 8)

abbrev pub bitmask_msb8 : ℕ → ℕ
bitmask_msb8 n = shl8 255 n

abbrev pub to_be_bytes : ℕ → List ℕ
to_be_bytes v = v / 2 ^ 24 % 256 ∷ v / 2 ^ 16 % 256 ∷ v / 2 ^ 8 % 256 ∷ v % 256 ∷ []

-- the first part of `split_at`, which panics past the end
abbrev pub split_front : ℕ → List ℕ → Outcome (List ℕ)
split_front zero bs = returned []
split_front (suc n) [] = panicked
split_front (suc n) (b ∷ bs) = split_front n bs >>= λ rest. returned (b ∷ rest)

-- `out.pop()` with what is left
abbrev pub pop : List ℕ → Option (List ℕ × ℕ)
pop [] = none
pop (b ∷ []) = some ([], b)
pop (b ∷ c ∷ bs) =
    let rest = pop (c ∷ bs) in elim rest [ some r ↦ some (b ∷ r.0, r.1) | none ↦ none ]

-- The bytes so far, and how many bits of the last one are free.
pub record Packed : Type 0 where
  pub out : List ℕ
  pub nbit_avail_last : ℕ

-- the bits of a field that go into the last byte: the packed state, what is left of the value and
-- of its length
abbrev pub fill_last : Packed → ℕ → ℕ → Outcome (Packed × ℕ × ℕ)
fill_last p v sz =
    if ltb 0 p.nbit_avail_last
    then (let avail = p.nbit_avail_last in
        let nbit_shift = min avail sz in
        let v0 = shr32 v (32 - avail) % 256 in
        elim (pop p.out) [
          | none ↦ panicked
          | some (front, last) ↦
              let out = front ++ bit_or (bit_and last (bitmask_msb8 avail)) v0 ∷ [] in
              returned (
                if nbit_shift == sz
                then (record { out = out; nbit_avail_last = avail - sz }, shl32 v nbit_shift, 0)
                else (
                  record { out = out; nbit_avail_last = avail },
                  shl32 v nbit_shift,
                  sz - avail,
                ))
        ])
    else returned (p, v, sz)

-- the bytes that a rest of a field adds
abbrev pub add_bytes : Packed → ℕ → ℕ → Outcome Packed
add_bytes p v sz =
    let lastbyte_incomplete = if sz % 8 == 0 then 0 else 1 in
    split_front (sz / 8 + lastbyte_incomplete) (to_be_bytes v) >>= λ adding. returned (record {
      out = p.out ++ adding;
      nbit_avail_last = if ltb 0 sz then lastbyte_incomplete * 8 - sz % 8 else p.nbit_avail_last;
    })

abbrev pub pack_field : Packed → ℕ × ℕ → Outcome Packed
pack_field p (v, sz) =
    assert (leb sz 32)
    >> assert (ltb p.nbit_avail_last 8)
    >> fill_last p (shl32 v (32 - sz)) sz
    >>= λ r. add_bytes r.0 r.1 r.2

abbrev pub pack_fields : Packed → List (ℕ × ℕ) → Outcome Packed
pack_fields p [] = returned p
pack_fields p (f ∷ fs) = pack_field p f >>= λ p'. pack_fields p' fs

unfoldable pub compact_bitvec : List (ℕ × ℕ) → Outcome (List ℕ)
compact_bitvec given =
    assert (leb (sum_of (λ f. f.1) given) (nbytes * 8))
    >> pack_fields (record { out = []; nbit_avail_last = 0 }) given
    >>= λ p. returned p.out

-- `given[i]`, which panics out of range
abbrev pub index : List ℕ → ℕ → Outcome ℕ
index [] i = panicked
index (b ∷ bs) zero = returned b
index (b ∷ bs) (suc i) = index bs i

-- The variables of the loop over the bits of one field.
pub record Cursor : Type 0 where
  pub value : ℕ
  pub nbits_remaining : ℕ
  pub bit_idx : ℕ

-- the variables after a turn of the loop over this byte
abbrev pub take_bits : Cursor → ℕ → Cursor
take_bits c octet =
    let bit_offset = c.bit_idx % 8 in
    let nbits = min c.nbits_remaining (8 - bit_offset) in
    let extracted_bits = bit_and (shr8 octet (8 - bit_offset - nbits)) (2 ^ nbits - 1) in
    record {
      value = bit_or (shl32 c.value nbits) extracted_bits;
      nbits_remaining = c.nbits_remaining - nbits;
      bit_idx = c.bit_idx + nbits;
    }

-- one turn of the loop
unfoldable pub extract_chunk : List ℕ → Cursor → Outcome Cursor
extract_chunk given c = index given (c.bit_idx / 8) >>= λ octet. returned (take_bits c octet)

-- `while nbits_remaining > 0`, on fuel
unfoldable pub extract_loop : ℕ → List ℕ → Cursor → Outcome Cursor
extract_loop zero given c = returned c
extract_loop (suc fuel) given c = elim (ltb 0 c.nbits_remaining) [
  | true ↦ extract_chunk given c >>= λ c'. extract_loop fuel given c'
  | false ↦ returned c
]

-- A turn takes at least one bit, so as many turns as bits are enough.
abbrev pub extract_field : List ℕ → ℕ → ℕ → Outcome Cursor
extract_field given bit_idx len =
    extract_loop len given (record { value = 0; nbits_remaining = len; bit_idx = bit_idx })

abbrev pub extract_fields : List ℕ → ℕ → List ℕ → Outcome (List ℕ)
extract_fields given bit_idx [] = returned []
extract_fields given bit_idx (len ∷ lens) = extract_field given bit_idx len >>= λ c.
    extract_fields given c.bit_idx lens >>= λ vs. returned (c.value ∷ vs)

unfoldable pub extract_bitvec : List ℕ → List ℕ → Outcome (List ℕ)
extract_bitvec given lens = extract_fields given 0 lens

-- `to_string`: two digits of base 16 for each byte
abbrev hex_digit : ℕ → String
hex_digit n = slice "0123456789abcdef" n (suc n)

unfoldable pub to_string : List ℕ → String
to_string [] = ""
to_string (b ∷ bs) = hex_digit (b / 16 % 16) ++ₛ hex_digit (b % 16) ++ₛ to_string bs

-- `TryFrom<Vec<u8>>`: an array of exactly 9 bytes, else the error code of corrupt data
unfoldable pub token_of : List ℕ → Result AppErrorCode (List ℕ)
token_of v = if length v == nbytes then ok v else err data_corruption

module _ {T : Type 0} ⦃k : Calendar T⦄ where
  abbrev pub given_fields : ℕ → T → List (ℕ × ℕ)
  given_fields owner now =
      (owner, 32)
      ∷ ((k.year_ce now).1, 14)
      ∷ (k.month now, 4)
      ∷ (k.day now, 5)
      ∷ (k.hour now, 5)
      ∷ (k.minute now, 6)
      ∷ (k.second now, 6)
      ∷ []

  -- the last step is the `unwrap` of the conversion to an array
  unfoldable pub encode : ℕ → T → Outcome (List ℕ)
  encode owner now = compact_bitvec (given_fields owner now) >>= λ inner.
      assert (length inner == nbytes) >> returned inner

  abbrev pub date_of : ℕ → LocalResult T → Result String (ℕ × T)
  date_of usr_id (single t) = ok (usr_id, t)
  date_of usr_id (ambiguous t0 t1) = err "ambiguous-time"
  date_of usr_id none_local = err "invalid-time-serial"

  abbrev pub decode_fields : List ℕ → Outcome (Result String (ℕ × T))
  decode_fields (u ∷ y ∷ mo ∷ d ∷ h ∷ mi ∷ s ∷ []) =
      returned (date_of u (k.with_ymd_and_hms y mo d h mi s))
  decode_fields vs = panicked

  unfoldable pub decode : List ℕ → Outcome (Result String (ℕ × T))
  decode token = extract_bitvec token fields_len >>= decode_fields
