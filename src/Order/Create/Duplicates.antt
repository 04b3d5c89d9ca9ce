-- ===== src/Order/Create/Duplicates.antt =====
-- Which orders have lines that repeat another one.
use e_commerce.Order.Create.Seqs.{AreDistinct, unnumbered, update_attr_seqs-AreDistinct}
use e_commerce.Common.{
  map, length, ◌≤◌, ◌^◌, ℕ, ◌≡◌, ◌<◌, ◌↔◌, refl, Bool, true, false, not, ◌&&◌, ◌||◌, List, [], ◌∷◌,
  arith, All, is_empty,
}
use e_commerce.Common.Outcome.{Result, ok, err}
use e_commerce.Order.Line.{OrderLineModel}
use e_commerce.Order.Create.{
  OlineDupError, dup_eq, dup_key, push_group, repeated, group_lines, find_duplicate, try_from_inner,
}

-- The specification: no line has the product and the attributes of a later one.
abbrev pub is_apart_from : {T : Type 0} → OlineDupError → List (OrderLineModel T) → Bool
is_apart_from k [] = true
is_apart_from k (m ∷ ms) = not (dup_eq k (dup_key m)) && is_apart_from k ms

abbrev pub no_repeat : {T : Type 0} → List (OrderLineModel T) → Bool
no_repeat [] = true
no_repeat (l ∷ ls) = is_apart_from (dup_key l) ls && no_repeat ls

abbrev has_group : OlineDupError → List (OlineDupError × ℕ) → Bool
has_group k [] = false
has_group k ((j, n) ∷ m) = dup_eq j k || has_group k m

abbrev AreCounted : List (OlineDupError × ℕ) → Type 0
AreCounted = All λ e. 0 < e.1

push_group-repeated :
    (k : OlineDupError) (grps : List (OlineDupError × ℕ))
    → AreCounted grps
    → is_empty (repeated (push_group k grps)) ≡ is_empty (repeated grps) && not (has_group k grps)
push_group-repeated k [] p = refl
push_group-repeated k ((j, n) ∷ m) (p, ps) = ground (arith, push_group-repeated k m ps)

push_group-has_group :
    (j k : OlineDupError) (grps : List (OlineDupError × ℕ))
    → has_group k grps ≡ false
    → has_group j (push_group k grps) ≡ has_group j grps || dup_eq k j
push_group-has_group j k [] h = ground arith
push_group-has_group j k ((i, n) ∷ m) h = ground (arith, push_group-has_group j k m)

push_group-AreCounted :
    (k : OlineDupError) (grps : List (OlineDupError × ℕ))
    → AreCounted grps
    → AreCounted (push_group k grps)
push_group-AreCounted k [] p = (omega arith, tt)
push_group-AreCounted k ((j, n) ∷ m) (p, ps) = ground (arith, push_group-AreCounted k m ps)

module _ {T : Type 0} where
  abbrev are_new : List (OlineDupError × ℕ) → List (OrderLineModel T) → Bool
  are_new grps [] = true
  are_new grps (l ∷ ls) = not (has_group (dup_key l) grps) && are_new grps ls

  are_new-push_group :
      (k : OlineDupError) (grps : List (OlineDupError × ℕ)) (ls : List (OrderLineModel T))
      → has_group k grps ≡ false
      → are_new (push_group k grps) ls ≡ are_new grps ls && is_apart_from k ls
  are_new-push_group k grps [] h = refl
  are_new-push_group k grps (l ∷ ls) h =
      ground (arith, push_group-has_group (dup_key l) k grps h, are_new-push_group k grps ls h)

  group_lines-repeated :
      (grps : List (OlineDupError × ℕ)) (ls : List (OrderLineModel T))
      → AreCounted grps
      → is_empty (repeated (group_lines grps ls))
        ≡ is_empty (repeated grps) && (are_new grps ls && no_repeat ls)
  unfolding group_lines
  group_lines-repeated grps [] p = ground arith
  group_lines-repeated grps (l ∷ ls) p =
      let k = dup_key l in
      ground (
        arith,
        push_group-repeated k grps p,
        are_new-push_group k grps ls,
        group_lines-repeated (push_group k grps) ls (push_group-AreCounted k grps p),
      )

  are_new-nil : (ls : List (OrderLineModel T)) → are_new [] ls ≡ true
  are_new-nil [] = refl
  are_new-nil (l ∷ ls) = are_new-nil ls

  -- No duplicate is found in an order exactly when no line has the product and the sorted attribute
  -- keys of a later one.
  pub find_duplicate-nil_iff :
      (ls : List (OrderLineModel T)) → (find_duplicate ls ≡ []) ↔ (no_repeat ls ≡ true)
  unfolding find_duplicate
  find_duplicate-nil_iff ls = (
    λ h. ground (arith, h, group_lines-repeated [] ls tt, are_new-nil ls),
    λ h. ground (arith, h, group_lines-repeated [] ls tt, are_new-nil ls),
  )

  -- How the making of an order ends: its lines, or the repeated ones.
  abbrev pub Makes :
      List (OrderLineModel T) → Result (List OlineDupError) (List (OrderLineModel T)) → Type 0
  Makes ls (err es) = (no_repeat ls ≡ false) × (es ≡ find_duplicate ls)
  Makes ls (ok ls') =
      (no_repeat ls ≡ true) × AreDistinct ls' × (map unnumbered ls' ≡ map unnumbered ls)

  -- An order of at most 2 ^ 16 lines is refused, with the repeated lines, when a line has the
  -- product and the attributes of another one. Otherwise no two lines of the order have the same
  -- identity, and nothing but their sequence numbers changes.
  pub try_from_inner-Makes :
      (ls : List (OrderLineModel T)) → length ls ≤ 2 ^ 16 → Makes ls (try_from_inner ls true)
  unfolding try_from_inner
  try_from_inner-Makes ls h =
      ground (arith, find_duplicate-nil_iff ls, update_attr_seqs-AreDistinct ls h)
