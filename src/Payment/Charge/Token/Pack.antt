-- ===== src/Payment/Charge/Token/Pack.antt =====
-- Packing fields of bits: `ChargeToken::compact_bitvec` of services/payment/src/model/charge.rs.
use e_commerce.Common.{ℕ, ◌+◌, ◌*◌, ◌/◌, ◌%◌, ◌^◌, ◌<◌, ◌≡◌, ◌∙◌, List, [], ◌∷◌, arith}
use e_commerce.Common.Bits.{merge_byte}
use e_commerce.Common.Outcome.{returned}
use e_commerce.Payment.Charge.Token.{compact_bitvec}

-- The fields of a token fit their lengths.
abbrev pub FitFields : (u y mo d h mi s : ℕ) → Type 0
FitFields u y mo d h mi s =
    (u < 2 ^ 32) × (y < 2 ^ 14) × (mo < 16) × (d < 32) × (h < 32) × (mi < 64) × (s < 64)

-- The bytes of a token as arithmetic.
abbrev pub packed : (u y mo d h mi s : ℕ) → List ℕ
packed u y mo d h mi s =
    (u / 16_777_216)
    ∷ (u / 65536 % 256)
    ∷ (u / 256 % 256)
    ∷ (u % 256)
    ∷ (y / 64)
    ∷ (y % 64 * 4 + mo / 4)
    ∷ ((mo % 4 * 32 + d) * 2 + h / 16)
    ∷ (h % 16 * 16 + mi / 4)
    ∷ (mi % 4 * 64 + s)
    ∷ []

nine :
    {a0 a1 a2 a3 a4 a5 a6 a7 a8 b0 b1 b2 b3 b4 b5 b6 b7 b8 : ℕ}
    → a0 ≡ b0
    → a1 ≡ b1
    → a2 ≡ b2
    → a3 ≡ b3
    → a4 ≡ b4
    → a5 ≡ b5
    → a6 ≡ b6
    → a7 ≡ b7
    → a8 ≡ b8
    → returned (a0 ∷ a1 ∷ a2 ∷ a3 ∷ a4 ∷ a5 ∷ a6 ∷ a7 ∷ a8 ∷ [])
      ≡ returned (b0 ∷ b1 ∷ b2 ∷ b3 ∷ b4 ∷ b5 ∷ b6 ∷ b7 ∷ b8 ∷ [])
nine e0 e1 e2 e3 e4 e5 e6 e7 e8 =
    λ i. returned (e0 i ∷ e1 i ∷ e2 i ∷ e3 i ∷ e4 i ∷ e5 i ∷ e6 i ∷ e7 i ∷ e8 i ∷ [])

pub compact_bitvec-packed :
    (u y mo d h mi s : ℕ)
    → FitFields u y mo d h mi s
    → compact_bitvec ((u, 32) ∷ (y, 14) ∷ (mo, 4) ∷ (d, 5) ∷ (h, 5) ∷ (mi, 6) ∷ (s, 6) ∷ [])
      ≡ returned (packed u y mo d h mi s)
unfolding compact_bitvec
compact_bitvec-packed u y mo d h mi s (fu, fy, fmo, fd, fh, fmi, fs) =
    nine (omega arith) (omega arith) (omega arith) (omega arith) (omega arith)
      (merge_byte 2 (y % 64) (mo / 4) (omega arith) (omega arith) (omega arith) (omega arith)
        (omega arith))
      (merge_byte 1 (mo % 4 * 32 + d) (h / 16) (omega arith) (omega arith) (omega arith)
        (merge_byte 6 (mo % 4) (d * 2) (omega arith) (omega arith) (omega arith) (omega arith)
            (omega arith)
          ∙ omega arith)
        (omega arith))
      (merge_byte 4 (h % 16) (mi / 4) (omega arith) (omega arith) (omega arith) (omega arith)
        (omega arith))
      (merge_byte 6 (mi % 4) s (omega arith) (omega arith) (omega arith) (omega arith)
        (omega arith))
