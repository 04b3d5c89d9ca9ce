-- ===== src/Common/Bits.antt =====
-- Shifts and masks of machine words as arithmetic: `|` of two disjoint parts is their sum, and `&`
-- with a mask of low bits is a remainder.
use Prim.Native.Nat.{
  ℕ, zero, suc, ◌+◌, ◌-◌, ◌*◌, ◌/◌, ◌%◌, ◌^◌, ◌≤◌, ◌<◌, max, bit_and, bit_or, digits,
  bit_or-bitwise,
}
use mathlib.Core.Path.{◌≡◌, refl, ap}
use mathlib.Core.Bool.{Bool, true, ◌&&◌}
use native.Mathlib.Nat.{pow-suc, mod-lt, one-le-pow, div-le_self, mul-div_cancel}
use native.Mathlib.Omega.{arith}
use e_commerce.Common.Tests.{◌==◌, eqb_iff}

-- A count of digits that covers the first number is as good as another.
module _ (z : ℕ → ℕ) (f : ℕ → ℕ → ℕ) where
  digits-fuel : (n m a b : ℕ) → a ≤ n → a ≤ m → digits z f n a b ≡ digits z f m a b
  digits-fuel zero zero a b p q = refl
  digits-fuel zero (suc m) zero b p q = refl
  digits-fuel zero (suc m) (suc a) b p q = absurd (omega arith)
  digits-fuel (suc n) zero zero b p q = refl
  digits-fuel (suc n) zero (suc a) b p q = absurd (omega arith)
  digits-fuel (suc n) (suc m) zero b p q = refl
  digits-fuel (suc n) (suc m) (suc a) b p q =
      omega (arith, digits-fuel n m (suc a / 2) (b / 2) (omega arith) (omega arith))

zero-bit_or : (b : ℕ) → bit_or 0 b ≡ b
zero-bit_or b = bit_or-bitwise 0 b

bit_or-step : (a b : ℕ) → bit_or a b ≡ bit_or (a / 2) (b / 2) * 2 + max (a % 2) (b % 2)
bit_or-step zero b = omega (arith, zero-bit_or b, zero-bit_or (b / 2))
bit_or-step (suc a) b = omega (
  arith,
  bit_or-bitwise (suc a) b,
  bit_or-bitwise (suc a / 2) (b / 2),
  digits-fuel (λ x. x) max a (suc a / 2) (suc a / 2) (b / 2) (omega arith) (omega arith),
)

bit_or-zero-fuel : (n a : ℕ) → a ≤ n → bit_or a 0 ≡ a
bit_or-zero-fuel n zero h = zero-bit_or 0
bit_or-zero-fuel zero (suc a) h = absurd (omega arith)
bit_or-zero-fuel (suc n) (suc a) h =
    omega (arith, bit_or-step (suc a) 0, bit_or-zero-fuel n (suc a / 2) (omega arith))

-- `|` with something that fits below the last set bit adds.
pub bit_or-add : (k q r : ℕ) → r < 2 ^ k → bit_or (q * 2 ^ k) r ≡ q * 2 ^ k + r
bit_or-add zero q r h = ground (arith, bit_or-zero-fuel q q)
bit_or-add (suc k) q r h = ground (
  arith,
  bit_or-step (q * 2 ^ suc k) r,
  ap (λ (t : ℕ). q * t) (pow-suc 2 k),
  bit_or-add k q (r / 2) (omega arith),
)

-- Over a byte, a law is checked at every value.
all_below : ℕ → (ℕ → Bool) → Bool
all_below zero p = true
all_below (suc n) p = p n && all_below n p

all_below-lem : (n : ℕ) (p : ℕ → Bool) (x : ℕ) → all_below n p ≡ true → x < n → p x ≡ true
unfolding all_below
all_below-lem zero p x h lt = absurd (omega arith)
all_below-lem (suc n) p x h lt = ground (arith, all_below-lem n p x)

low_table : all_below 9 (λ n. all_below 256 (λ a. bit_and a (2 ^ n - 1) == a % 2 ^ n)) ≡ true
unfolding all_below
low_table = refl

high_table :
    all_below 8 (λ n. all_below 256 (λ a. bit_and a (255 * 2 ^ n % 256) == a / 2 ^ n * 2 ^ n))
    ≡ true
unfolding all_below
high_table = refl

-- The low bits of a byte.
pub bit_and-low : (n a : ℕ) → n < 9 → a < 256 → bit_and a (2 ^ n - 1) ≡ a % 2 ^ n
bit_and-low n a hn ha = (eqb_iff _ _).0 (
    all_below-lem 256 (λ a. bit_and a (2 ^ n - 1) == a % 2 ^ n) a (all_below-lem 9 _ n low_table hn)
      ha)

-- The high bits of a byte.
pub bit_and-high : (n a : ℕ) → n < 8 → a < 256 → bit_and a (255 * 2 ^ n % 256) ≡ a / 2 ^ n * 2 ^ n
bit_and-high n a hn ha = (eqb_iff _ _).0 (
    all_below-lem 256 (λ a. bit_and a (255 * 2 ^ n % 256) == a / 2 ^ n * 2 ^ n) a
      (all_below-lem 8 _ n high_table hn) ha)

-- `(v << n) | (b >> k & mask)`: the bits of a byte below those of a word with room for them.
pub bit_field :
    (k n v b : ℕ)
    → n < 9
    → b < 256
    → bit_or (v * 2 ^ n) (bit_and (b / 2 ^ k) (2 ^ n - 1)) ≡ v * 2 ^ n + b / 2 ^ k % 2 ^ n
bit_field k n v b hn hb =
    let part = bit_and-low n (b / 2 ^ k) hn (omega (arith, div-le_self b (2 ^ k))) in
    rw part (
      bit_or-add n v (b / 2 ^ k % 2 ^ n)
        (mod-lt (b / 2 ^ k) (omega (arith, one-le-pow n 2 (omega arith)))))

-- `(a & (0xff << n)) | b`: a byte with its high bits, and other low bits put in.
pub merge_byte :
    (n q r : ℕ) {a b : ℕ}
    → n < 8
    → q * 2 ^ n < 256
    → r < 2 ^ n
    → a ≡ q * 2 ^ n
    → b ≡ r
    → bit_or (bit_and a (255 * 2 ^ n % 256)) b ≡ q * 2 ^ n + r
merge_byte n q r hn hq hr ea eb =
    rw
      (
        ea,
        eb,
        bit_and-high n (q * 2 ^ n) hn hq,
        mul-div_cancel q {n = 2 ^ n} (omega (arith, one-le-pow n 2 (omega arith))),
      )
      (bit_or-add n q r hr)
