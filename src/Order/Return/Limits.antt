-- ===== src/Order/Return/Limits.antt =====
-- Requests that are accepted together, for different order lines: what they were checked for.
use e_commerce.Common.{
  ◌≤◌, ◌≡◌, ◌≢◌, refl, true, false, Option, none, some, List, [], ◌∷◌, ◌++◌, arith, find, All,
  add32, Bool-cases, Option-cases, inl, inr, is_empty,
}
use e_commerce.Common.Chrono.{Chrono}
use e_commerce.Common.Outcome.{Outcome, returned, panicked, ◌>>=◌}
use e_commerce.Order.Line.{OrderLineModel, id_eq}
use e_commerce.Order.Line.Payment.{num_reserved}
use e_commerce.Order.Return.{
  OrderLineReturnReqDto, OrderReturnModel, Filtered, ok, err, is_line, already_returned, check_line,
  check_request, check_requests, add_requests, filter_requests, min_secs_intvl_req,
}
use e_commerce.Order.Return.Records.{AreApart, Records, RecordsAll, add_requests-RecordsAll}

module _ {T : Type 0} ⦃c : Chrono T⦄ where
  -- What a request was checked for: the line is under warranty, and with what is returned already
  -- no more goes back than is reserved.
  abbrev WithinLine :
      T → OrderLineReturnReqDto → List (OrderReturnModel T) → Option (OrderLineModel T) → Type 0
  WithinLine time_now d saved none = ⊥
  WithinLine time_now d saved (some m) =
      (c.lt time_now m.policy.warranty_until ≡ true)
      × (add32 (already_returned (find (λ r. id_eq r.id_ m.id_) saved)) d.quantity
          ≤ num_reserved time_now m)

  abbrev pub Within :
      T → List (OrderLineModel T) → List (OrderReturnModel T) → OrderLineReturnReqDto → Type 0
  Within time_now lines saved d = WithinLine time_now d saved (find (is_line d) lines)

  check_request-Within :
      (t : T) (lines : List (OrderLineModel T)) (saved : List (OrderReturnModel T))
      (d : OrderLineReturnReqDto)
      → check_request t lines saved d ≡ none
      → Within t lines saved d × (find (is_line d) lines ≢ none)
  unfolding check_request check_line
  check_request-Within t lines saved d e = elim (Option-cases (find (is_line d) lines)) [
    | inl missing ↦ ground arith
    | inr (m, found) ↦ ground arith
  ]

  check_requests-Within :
      (t : T) (lines : List (OrderLineModel T)) (saved : List (OrderReturnModel T))
      (ds : List OrderLineReturnReqDto)
      → is_empty (check_requests t lines saved ds) ≡ true
      → All (Within t lines saved) ds × All (λ d. find (is_line d) lines ≢ none) ds
  unfolding check_requests
  check_requests-Within t lines saved [] e = (tt, tt)
  check_requests-Within t lines saved (d ∷ ds) e =
      elim (Option-cases (check_request t lines saved d)) [
        | inl fine ↦
            let head = check_request-Within t lines saved d fine in
            let rest = check_requests-Within t lines saved ds (ground arith) in
            ((head.0, rest.0), (head.1, rest.1))
        | inr (reason, bad) ↦ ground arith
      ]

  -- How `filter_requests` ends, for requests that name different lines.
  abbrev pub Filters :
      T
      → List OrderLineReturnReqDto
      → List (OrderLineModel T)
      → List (OrderReturnModel T)
      → Outcome (Filtered T)
      → Type 0
  Filters t ds lines saved panicked = ⊥
  Filters t ds lines saved (returned (ok out)) =
      All (Within t lines saved) ds × All (Records t lines out) ds
  Filters t ds lines saved (returned (err es)) =
      (es ≡ check_requests t lines saved ds) × (is_empty es ≡ false)

  Filters-accepted :
      (t : T) (ds : List OrderLineReturnReqDto) (lines : List (OrderLineModel T))
      (saved : List (OrderReturnModel T))
      (r : Outcome (List (OrderReturnModel T) × List (OrderReturnModel T)))
      → All (Within t lines saved) ds
      → RecordsAll t lines ds r
      → Filters t ds lines saved (r >>= λ p. returned (ok (p.0 ++ p.1)))
  Filters-accepted t ds lines saved panicked w h = h
  Filters-accepted t ds lines saved (returned (rs, ns)) w h = (w, h)

  -- Return requests that name different order lines never panic. If they are accepted, each of
  -- their lines is under warranty, the number returned before plus the requested one, added on u32,
  -- is within what is reserved, and just the new entry is recorded for the line. If not, the errors
  -- are those of the checks, and there is one at least.
  pub filter_requests-Filters :
      (now : T) (ds : List OrderLineReturnReqDto) (lines : List (OrderLineModel T))
      (saved : List (OrderReturnModel T))
      → AreApart ds
      → Filters
          (c.trunc_to now min_secs_intvl_req)
          ds
          lines
          saved
          (filter_requests now ds lines saved)
  unfolding filter_requests
  filter_requests-Filters now ds lines saved h =
      let t = c.trunc_to now min_secs_intvl_req in
      elim (Bool-cases (is_empty (check_requests t lines saved ds))) [
        | inl fine ↦
            let (within, found) = check_requests-Within t lines saved ds fine in
            rw fine (
              Filters-accepted t ds lines saved (add_requests t lines ds saved) within
                (add_requests-RecordsAll t lines ds saved h found))
        | inr bad ↦ rw bad (refl, bad)
      ]
