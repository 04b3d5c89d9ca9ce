-- ===== src/Payment/Tests/Mills.antt =====
-- Decimals for the tests.
use Prim.Native.String.{String, [], ◌∷◌}
use e_commerce.Common.{
  ℕ, zero, suc, ◌+◌, ◌-◌, ◌*◌, ◌/◌, ◌%◌, ◌≤◌, ◌≡◌, refl, ap, false, none, some, leb, ◌==◌,
  if◌then◌else◌, arith,
}
use e_commerce.Common.Decimal.{Decimal, IsDecimal}

-- Decimals in thousandths, printed as so many characters.
abbrev pub Mills : Type 0
Mills = ℕ

abbrev print : ℕ → String
print zero = []
print (suc n) = "x" ∷ print n

abbrev length_of : String → ℕ
length_of [] = 0
length_of (c ∷ s) = suc (length_of s)

abbrev cut : ℕ → ℕ → ℕ
cut a zero = a / 1000 * 1000
cut a (suc zero) = a / 100 * 100
cut a (suc (suc zero)) = a / 10 * 10
cut a (suc (suc (suc n))) = a

abbrev places : ℕ → ℕ
places a = if a % 1000 == 0 then 0 else if a % 100 == 0 then 1 else if a % 10 == 0 then 2 else 3

instance abbrev pub mills_decimal : Decimal Mills
mills_decimal = record {
  zero = 0;
  of_u32 = λ n. n * 1000;
  of_str = λ s. some (length_of s);
  to_str = print;
  add = ◌+◌;
  sub = ◌-◌;
  mul = λ a b. a * b / 1000;
  saturating_sub = ◌-◌;
  checked_sub = λ a b. if leb b a then some (a - b) else none;
  checked_mul = λ a b. some (a * b / 1000);
  le = leb;
  eq = ◌==◌;
  is_sign_negative = λ a. false;
  scale = places;
  checked_div = λ a b. if b == 0 then none else some (a * 1000 / b);
  trunc_with_scale = cut;
}

length_of-print : (n : ℕ) → length_of (print n) ≡ n
length_of-print zero = refl
length_of-print (suc n) = ap suc (length_of-print n)

places-cut : (a n : ℕ) → places (cut a n) ≤ n
places-cut a zero = ground arith
places-cut a (suc zero) = ground arith
places-cut a (suc (suc zero)) = ground arith
places-cut a (suc (suc (suc n))) = ground arith

pub Mills-IsDecimal : IsDecimal Mills
Mills-IsDecimal = record {
  of_str-to_str = λ a. ap some (length_of-print a);
  scale-trunc = places-cut;
}
