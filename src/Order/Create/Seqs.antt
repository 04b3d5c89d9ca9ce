-- ===== src/Order/Create/Seqs.antt =====
-- The numbers that make the lines of an order differ.
use e_commerce.Common.{
  ℕ, ◌+◌, ◌%◌, ◌^◌, ◌≤◌, ◌≡◌, refl, false, List, [], ◌∷◌, map, arith, All, length, if◌then◌else◌,
}
use e_commerce.Order.Line.{BaseProductIdentity, OrderLineModel, id_eq}
use e_commerce.Order.Create.{base_eq, next_seq, put_seq, number_lines, update_attr_seqs}

All-map {ℓ} :
    {A : Type ℓ} {P Q : A → Type 0} → ((a : A) → P a → Q a) → (xs : List A) → All P xs → All Q xs
All-map f [] h = tt
All-map f (x ∷ xs) (h, hs) = (f x h, All-map f xs hs)

next_seq-put_seq :
    (b k : BaseProductIdentity) (n : ℕ) (grps : List (BaseProductIdentity × ℕ))
    → next_seq b (put_seq k n grps) ≡ (if base_eq k b then n else next_seq b grps)
next_seq-put_seq b k n [] = refl
next_seq-put_seq b k n ((j, i) ∷ grps) = ground (arith, next_seq-put_seq b k n grps)

-- No number wraps around while `n` more lines are numbered.
HasNumbers : List (BaseProductIdentity × ℕ) → ℕ → Type 0
HasNumbers grps n = (b : BaseProductIdentity) → next_seq b grps + n ≤ 2 ^ 16

module _ {T : Type 0} where
  -- The line's number is not below the next one of its product.
  IsFresh : List (BaseProductIdentity × ℕ) → OrderLineModel T → Type 0
  IsFresh grps m = next_seq m.id_.base grps ≤ m.id_.attr_set_req

  -- No two lines have the same identity.
  abbrev pub AreDistinct : List (OrderLineModel T) → Type 0
  AreDistinct [] = Unit
  AreDistinct (m ∷ ms) = All (λ x. id_eq m.id_ x.id_ ≡ false) ms × AreDistinct ms

  number_lines-AreDistinct :
      (grps : List (BaseProductIdentity × ℕ)) (ls : List (OrderLineModel T))
      → HasNumbers grps (length ls)
      → All (IsFresh grps) (number_lines grps ls) × AreDistinct (number_lines grps ls)
  unfolding number_lines IsFresh HasNumbers id_eq
  number_lines-AreDistinct grps [] h = (tt, tt)
  number_lines-AreDistinct grps (l ∷ []) h = ground arith
  number_lines-AreDistinct grps (l ∷ y ∷ ls) h =
      let k = l.id_.base in
      let n = next_seq k grps in
      let grps' = put_seq k ((n + 1) % 2 ^ 16) grps in
      let room : HasNumbers grps' (length (y ∷ ls)) =
        λ b. ground (arith, h b, h k, next_seq-put_seq b k ((n + 1) % 2 ^ 16) grps) in
      let (fresh, distinct) = number_lines-AreDistinct grps' (y ∷ ls) room in
      (
        (
          omega arith,
          All-map
              (λ m f. ground (arith, f, h k, next_seq-put_seq m.id_.base k ((n + 1) % 2 ^ 16) grps))
              (number_lines grps' (y ∷ ls)) fresh,
        ),
        (
          All-map
              (λ m f. ground (arith, f, h k, next_seq-put_seq m.id_.base k ((n + 1) % 2 ^ 16) grps))
              (number_lines grps' (y ∷ ls)) fresh,
          distinct,
        ),
      )

  -- A line without its number.
  abbrev pub unnumbered : OrderLineModel T → OrderLineModel T
  unnumbered m = record m { id_ = record m.id_ { attr_set_req = 0 } }

  number_lines-unnumbered :
      (grps : List (BaseProductIdentity × ℕ)) (ls : List (OrderLineModel T))
      → map unnumbered (number_lines grps ls) ≡ map unnumbered ls
  unfolding number_lines
  number_lines-unnumbered grps [] = refl
  number_lines-unnumbered grps (l ∷ ls) =
      let k = l.id_.base in
      ground (arith, number_lines-unnumbered (put_seq k ((next_seq k grps + 1) % 2 ^ 16) grps) ls)

  pub update_attr_seqs-AreDistinct :
      (ls : List (OrderLineModel T))
      → length ls ≤ 2 ^ 16
      → AreDistinct (update_attr_seqs ls)
        × (map unnumbered (update_attr_seqs ls) ≡ map unnumbered ls)
  unfolding update_attr_seqs HasNumbers
  update_attr_seqs-AreDistinct ls h =
      ((number_lines-AreDistinct [] ls (λ b. omega arith)).1, number_lines-unnumbered [] ls)
