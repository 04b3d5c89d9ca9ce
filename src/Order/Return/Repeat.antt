-- ===== src/Order/Return/Repeat.antt =====
-- Several requests of one batch for the same order line.
use e_commerce.Common.{
  ◌≤◌, ◌<◌, ◌≡◌, true, none, some, List, [], ◌∷◌, arith, find, u32_mod, add32-eq,
}
use e_commerce.Common.Chrono.{Chrono}
use e_commerce.Common.Outcome.{returned}
use e_commerce.Order.Line.{OrderLineModel}
use e_commerce.Order.Line.Payment.{num_reserved}
use e_commerce.Order.Return.{
  OrderLineReturnReqDto, OrderReturnModel, ok, id_combo, identity_of, is_line, check_line,
  check_request, check_requests, new_entry, add_request, add_requests, filter_requests,
  min_secs_intvl_req,
}

module _ {T : Type 0} ⦃c : Chrono T⦄ (now : T) where
  abbrev time_now : T
  time_now = c.trunc_to now min_secs_intvl_req

  -- The line is under warranty, and `d` asks for no more of it than is reserved.
  abbrev pub IsReturnable : OrderLineReturnReqDto → OrderLineModel T → Type 0
  IsReturnable d m =
      (c.lt time_now m.policy.warranty_until ≡ true)
      × (d.quantity ≤ num_reserved time_now m)
      × (d.quantity < u32_mod)

  abbrev return_of : OrderLineReturnReqDto → OrderLineModel T → OrderReturnModel T
  return_of d m = record { id_ = identity_of (id_combo d); qty = new_entry time_now d m ∷ [] }

  check_new :
      (d : OrderLineReturnReqDto) (m : OrderLineModel T) (lines : List (OrderLineModel T))
      → find (is_line d) lines ≡ some m
      → IsReturnable d m
      → check_request time_now lines [] d ≡ none
  unfolding check_request check_line
  check_new d m lines e h = rw e (ground (arith, add32-eq 0 d.quantity))

  add_new :
      (d : OrderLineReturnReqDto) (m : OrderLineModel T) (lines : List (OrderLineModel T))
      → find (is_line d) lines ≡ some m
      → add_request time_now lines d [] ≡ returned ([], some (return_of d m))
  unfolding add_request
  add_new d m lines e = ground arith

  -- Two requests for an order line without saved returns are accepted together if each of them
  -- alone would be: their sum is compared with nothing.
  pub filter_requests_twice :
      (d e : OrderLineReturnReqDto) (m : OrderLineModel T) (lines : List (OrderLineModel T))
      → find (is_line d) lines ≡ some m
      → find (is_line e) lines ≡ some m
      → IsReturnable d m
      → IsReturnable e m
      → filter_requests now (d ∷ e ∷ []) lines []
        ≡ returned (ok (return_of d m ∷ return_of e m ∷ []))
  unfolding filter_requests check_requests add_requests
  filter_requests_twice d e m lines fd fe hd he = rw (
    check_new d m lines fd hd,
    check_new e m lines fe he,
    add_new d m lines fd,
    add_new e m lines fe,
  )
