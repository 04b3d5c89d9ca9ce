-- ===== src/Common/Text.antt =====
-- Texts as lists of characters, and what the services use of Unicode and of regular expressions.
use Prim.Native.Nat.{ℕ, suc, ◌+◌, ◌/◌, ◌%◌}
use Prim.Native.Char.{Char, code}
use Prim.Native.String.{String, [], ◌∷◌, ◌++◌, slice}
use mathlib.Core.Bool.{Bool, true, false, ◌&&◌, ◌||◌}
use mathlib.Core.Option.{Option}
use mathlib.Core.List.{List, [] as nil, ◌∷◌ as cons}
use e_commerce.Common.Tests.{leb, if◌then◌else◌}

-- `char::is_alphabetic`, `is_whitespace` and `is_control` of the standard library, and where the
-- expression `REGEX_EMAIL_RFC5322` first matches a text, as `Regex::find` gives it: from which byte
-- to which.
pub record Texts : Type 0 where
  pub is_alphabetic : Char → Bool
  pub is_whitespace : Char → Bool
  pub is_control : Char → Bool
  pub find_email : String → Option (ℕ × ℕ)

abbrev pub no_text : String → Bool
no_text [] = true
no_text (c ∷ s) = false

-- `s.chars().all(p)` and `s.chars().any(p)`
abbrev pub all_chars : (Char → Bool) → String → Bool
all_chars p [] = true
all_chars p (c ∷ s) = p c && all_chars p s

abbrev pub any_char : (Char → Bool) → String → Bool
any_char p [] = false
any_char p (c ∷ s) = p c || any_char p s

-- `char::is_ascii_digit`
abbrev pub is_ascii_digit : Char → Bool
is_ascii_digit c = leb 48 (code c) && leb (code c) 57

-- `format!("{:02x}", b)` of the bytes, joined
abbrev hex_digit : ℕ → String
hex_digit n = slice "0123456789abcdef" n (suc n)

abbrev pub hex_text : List ℕ → String
hex_text nil = ""
hex_text (cons b bs) = hex_digit (b / 16) ++ hex_digit (b % 16) ++ hex_text bs

-- `s.len()`, the bytes of the text in UTF-8
abbrev utf8_len : Char → ℕ
utf8_len c =
    if leb (code c) 127
    then 1
    else if leb (code c) 2_047
    then 2
    else if leb (code c) 65_535
    then 3
    else 4

abbrev pub byte_len : String → ℕ
byte_len [] = 0
byte_len (c ∷ s) = utf8_len c + byte_len s
