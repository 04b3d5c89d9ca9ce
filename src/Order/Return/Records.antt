-- ===== src/Order/Return/Records.antt =====
-- What `filter_requests` records of requests for different order lines.
use e_commerce.Common.{
  ◌≡◌, ◌≢◌, refl, sym, Bool, true, false, Option, none, some, List, [], ◌∷◌, ◌++◌, arith, find,
  if◌then◌else◌, All, Bool-cases, Option-cases, inl, inr,
}
use mathlib.Core.Path.{subst}
use e_commerce.Common.Outcome.{Outcome, returned, panicked, ◌>>=◌}
use e_commerce.Order.Line.{OrderLineModel, compare_raw}
use e_commerce.Order.Return.{
  OrderLineReturnReqDto, OrderReturnModel, ReturnEntry, id_combo, identity_of, is_line, is_return,
  new_entry, add_request, add_requests, replace_entries, push_new,
}

-- The requests name different lines.
abbrev pub IsApart : OrderLineReturnReqDto → OrderLineReturnReqDto → Type 0
IsApart d e = id_combo d ≢ id_combo e

abbrev pub AreApart : List OrderLineReturnReqDto → Type 0
AreApart [] = Unit
AreApart (d ∷ ds) = All (IsApart d) ds × AreApart ds

module _ {T : Type 0} where
  -- The entries that are recorded for the line of a request.
  abbrev pub entries_for : OrderLineReturnReqDto → List (OrderReturnModel T) → List (ReturnEntry T)
  entries_for d [] = []
  entries_for d (r ∷ rs) = if is_return d r then r.qty else entries_for d rs

  abbrev has_return : OrderLineReturnReqDto → List (OrderReturnModel T) → Bool
  has_return d [] = false
  has_return d (r ∷ rs) = if is_return d r then true else has_return d rs

  abbrev return_with : OrderLineReturnReqDto → ReturnEntry T → OrderReturnModel T
  return_with d e = record { id_ = identity_of (id_combo d); qty = e ∷ [] }

  is_return-return_with :
      (d : OrderLineReturnReqDto) (e : ReturnEntry T) → is_return d (return_with d e) ≡ true
  unfolding compare_raw
  is_return-return_with d e = ground arith

  -- A return belongs to one line.
  is_return-apart :
      (d e : OrderLineReturnReqDto) (r : OrderReturnModel T)
      → IsApart d e
      → is_return e r ≡ true
      → is_return d r ≡ false
  unfolding compare_raw
  is_return-apart d e r ne h = elim (Bool-cases (is_return d r)) [
    | inl same ↦ absurd (ne (ground arith))
    | inr other ↦ other
  ]

  -- A return that the line of `d` does not match can stand anywhere.
  entries_for-skip :
      (d : OrderLineReturnReqDto) (rs ns : List (OrderReturnModel T)) (n : OrderReturnModel T)
      → is_return d n ≡ false
      → entries_for d (rs ++ n ∷ ns) ≡ entries_for d (rs ++ ns)
  entries_for-skip d [] ns n h = ground arith
  entries_for-skip d (r ∷ rs) ns n h = ground (arith, entries_for-skip d rs ns n h)

  entries_for-append :
      (d : OrderLineReturnReqDto) (rs ns : List (OrderReturnModel T))
      → entries_for d (rs ++ ns) ≡ (if has_return d rs then entries_for d rs else entries_for d ns)
  entries_for-append d [] ns = refl
  entries_for-append d (r ∷ rs) ns = ground (arith, entries_for-append d rs ns)

  -- After its own request the line has just the new entry, in the saved returns or as a new one.
  abbrev IsPlaced :
      OrderLineReturnReqDto
      → ReturnEntry T
      → List (OrderReturnModel T) × Option (OrderReturnModel T)
      → Type 0
  IsPlaced d e (rs, none) = (has_return d rs ≡ true) × (entries_for d rs ≡ e ∷ [])
  IsPlaced d e (rs, some n) = (has_return d rs ≡ false) × (n ≡ return_with d e)

  replace_entries-IsPlaced :
      (d : OrderLineReturnReqDto) (e : ReturnEntry T) (rs : List (OrderReturnModel T))
      → IsPlaced d e (replace_entries d e rs)
  replace_entries-IsPlaced d e [] = (refl, refl)
  replace_entries-IsPlaced d e (r ∷ rs) =
      go (replace_entries d e rs) (replace_entries-IsPlaced d e rs)
    where
      go :
          (p : List (OrderReturnModel T) × Option (OrderReturnModel T))
          → IsPlaced d e p
          → IsPlaced d e
              (if is_return d r then (record r { qty = e ∷ [] } ∷ rs, none) else (r ∷ p.0, p.1))
      go (rs', none) h = ground arith
      go (rs', some n) h = ground arith

  -- A request leaves the other lines alone.
  replace_entries-apart :
      (d f : OrderLineReturnReqDto) (e : ReturnEntry T) (rs : List (OrderReturnModel T))
      → IsApart d f
      → let rs' = (replace_entries f e rs).0 in
        (has_return d rs' ≡ has_return d rs) × (entries_for d rs' ≡ entries_for d rs)
  replace_entries-apart d f e [] ne = (refl, refl)
  replace_entries-apart d f e (r ∷ rs) ne =
      ground (arith, is_return-apart d f r ne, replace_entries-apart d f e rs ne)

  replace_entries-new :
      (d f : OrderLineReturnReqDto) (e : ReturnEntry T) (rs ns : List (OrderReturnModel T))
      → IsApart d f
      → has_return d (push_new (replace_entries f e rs).1 ns) ≡ has_return d ns
  replace_entries-new d f e [] ns ne =
      ground (arith, is_return-apart d f (return_with f e) ne, is_return-return_with f e)
  replace_entries-new d f e (r ∷ rs) ns ne = ground (arith, replace_entries-new d f e rs ns ne)

  module _ (time_now : T) (lines : List (OrderLineModel T)) where
    -- What is recorded for the line of a request, if the order has the line.
    abbrev RecordsLine :
        OrderLineReturnReqDto → List (OrderReturnModel T) → Option (OrderLineModel T) → Type 0
    RecordsLine d out none = ⊥
    RecordsLine d out (some m) = entries_for d out ≡ new_entry time_now d m ∷ []

    abbrev pub Records : List (OrderReturnModel T) → OrderLineReturnReqDto → Type 0
    Records out d = RecordsLine d out (find (is_line d) lines)

    abbrev HasLine : OrderLineReturnReqDto → Type 0
    HasLine d = find (is_line d) lines ≢ none

    -- The requests for other lines leave the saved and the new returns of `d` alone.
    abbrev Leaves :
        OrderLineReturnReqDto
        → List (OrderReturnModel T)
        → Outcome (List (OrderReturnModel T) × List (OrderReturnModel T))
        → Type 0
    Leaves d rs panicked = Unit
    Leaves d rs (returned (rs', ns)) =
        (has_return d rs' ≡ has_return d rs)
        × (entries_for d rs' ≡ entries_for d rs)
        × (has_return d ns ≡ false)

    add_request-some :
        (d : OrderLineReturnReqDto) (m : OrderLineModel T) (rs : List (OrderReturnModel T))
        → find (is_line d) lines ≡ some m
        → add_request time_now lines d rs ≡ returned (replace_entries d (new_entry time_now d m) rs)
    unfolding add_request
    add_request-some d m rs e = ground arith

    add_request-none :
        (d : OrderLineReturnReqDto) (rs : List (OrderReturnModel T))
        → find (is_line d) lines ≡ none
        → add_request time_now lines d rs ≡ panicked
    unfolding add_request
    add_request-none d rs e = ground arith

    Leaves-join :
        (d f : OrderLineReturnReqDto) (e : ReturnEntry T) (rs : List (OrderReturnModel T))
        (r : Outcome (List (OrderReturnModel T) × List (OrderReturnModel T)))
        → IsApart d f
        → Leaves d (replace_entries f e rs).0 r
        → Leaves d rs (r >>= λ rest. returned (rest.0, push_new (replace_entries f e rs).1 rest.1))
    Leaves-join d f e rs panicked ne h = tt
    Leaves-join d f e rs (returned (rs', ns)) ne h =
        ground (arith, replace_entries-apart d f e rs ne, replace_entries-new d f e rs ns ne)

    add_requests-Leaves :
        (d : OrderLineReturnReqDto) (ds : List OrderLineReturnReqDto)
        (rs : List (OrderReturnModel T))
        → All (IsApart d) ds
        → Leaves d rs (add_requests time_now lines ds rs)
    unfolding add_requests
    add_requests-Leaves d [] rs h = (refl, refl, refl)
    add_requests-Leaves d (f ∷ ds) rs (ne, h) = elim (Option-cases (find (is_line f) lines)) [
      | inl missing ↦ rw (add_request-none f rs missing) tt
      | inr (m, found) ↦
          let p = replace_entries f (new_entry time_now f m) rs in
          rw (add_request-some f m rs found) (
            Leaves-join d f (new_entry time_now f m) rs (add_requests time_now lines ds p.0) ne
              (add_requests-Leaves d ds p.0 h))
    ]

    -- All requests are recorded.
    abbrev pub RecordsAll :
        List OrderLineReturnReqDto
        → Outcome (List (OrderReturnModel T) × List (OrderReturnModel T))
        → Type 0
    RecordsAll ds panicked = ⊥
    RecordsAll ds (returned (rs, ns)) = All (Records (rs ++ ns)) ds

    Records-skip :
        (ds : List OrderLineReturnReqDto) (rs ns : List (OrderReturnModel T))
        (n : OrderReturnModel T)
        → All (λ d. is_return d n ≡ false) ds
        → All (Records (rs ++ ns)) ds
        → All (Records (rs ++ n ∷ ns)) ds
    Records-skip [] rs ns n h v = tt
    Records-skip (d ∷ ds) rs ns n (h, hs) (v, vs) = elim (Option-cases (find (is_line d) lines)) [
      | inl missing ↦ ground arith
      | inr (m, found) ↦
          (ground (arith, entries_for-skip d rs ns n h), Records-skip ds rs ns n hs vs)
    ]

    not-is_return-All :
        (f : OrderLineReturnReqDto) (e : ReturnEntry T) (ds : List OrderLineReturnReqDto)
        → All (IsApart f) ds
        → All (λ d. is_return d (return_with f e) ≡ false) ds
    not-is_return-All f e [] h = tt
    not-is_return-All f e (d ∷ ds) (h, hs) = (
      is_return-apart d f (return_with f e) (λ same. h (sym same)) (is_return-return_with f e),
      not-is_return-All f e ds hs,
    )

    RecordsAll-join :
        (f : OrderLineReturnReqDto) (m : OrderLineModel T) (ds : List OrderLineReturnReqDto)
        (p : List (OrderReturnModel T) × Option (OrderReturnModel T))
        (r : Outcome (List (OrderReturnModel T) × List (OrderReturnModel T)))
        → find (is_line f) lines ≡ some m
        → All (IsApart f) ds
        → IsPlaced f (new_entry time_now f m) p
        → Leaves f p.0 r
        → RecordsAll ds r
        → RecordsAll (f ∷ ds) (r >>= λ rest. returned (rest.0, push_new p.1 rest.1))
    RecordsAll-join f m ds p panicked found h placed l v = v
    RecordsAll-join f m ds (rs1, none) (returned (rs', ns)) found h placed l v =
        (rw found (ground (arith, entries_for-append f rs' ns)), v)
    RecordsAll-join f m ds (rs1, some n) (returned (rs', ns)) found h placed l v =
        let e = new_entry time_now f m in
        (
          rw (found, placed.1)
              (ground (
                arith,
                entries_for-append f rs' (return_with f e ∷ ns),
                is_return-return_with f e,
              )),
          Records-skip ds rs' ns n
              (subst (λ x. All (λ d. is_return d x ≡ false) ds) (sym placed.1)
                (not-is_return-All f e ds h))
              v,
        )

    pub add_requests-RecordsAll :
        (ds : List OrderLineReturnReqDto) (rs : List (OrderReturnModel T))
        → AreApart ds
        → All HasLine ds
        → RecordsAll ds (add_requests time_now lines ds rs)
    unfolding add_requests
    add_requests-RecordsAll [] rs h v = tt
    add_requests-RecordsAll (f ∷ ds) rs (h, hs) (v, vs) =
        elim (Option-cases (find (is_line f) lines)) [
          | inl missing ↦ absurd (v missing)
          | inr (m, found) ↦
              let e = new_entry time_now f m in
              let p = replace_entries f e rs in
              rw (add_request-some f m rs found) (
                RecordsAll-join f m ds p (add_requests time_now lines ds p.0) found h
                  (replace_entries-IsPlaced f e rs) (add_requests-Leaves f ds p.0 h)
                  (add_requests-RecordsAll ds p.0 hs vs))
        ]
