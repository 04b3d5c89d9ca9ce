-- ===== src/Order/Tests/Requests.antt =====
-- Runs on payments, returns, carts and policies.
use e_commerce.Common.{ℕ, ◌≡◌, refl, false, some, List, [], ◌∷◌, map, arith, All, mul32}
use e_commerce.Common.Chrono.{millis_chrono}
use e_commerce.Common.Outcome.{returned}
use e_commerce.Order.Tests.{line, line_id}
use e_commerce.Order.Line.{compare_raw}
use e_commerce.Order.Line.Payment.{OrderLinePaidUpdateDto, num_reserved}
use e_commerce.Order.Return.{
  OrderLineReturnReqDto, ok, filter_requests, min_secs_intvl_req, new_entry,
}
use e_commerce.Order.Return.Limits.{Filters, filter_requests-Filters}
use e_commerce.Order.Return.Repeat.{filter_requests_twice}
use e_commerce.Order.Cart.{CartModel, CartDto, CartLineDto}
use e_commerce.Order.Cart as Cart
use e_commerce.Order.Cart.Update.{update-quantity_of, quantity_of, not_saved}
use e_commerce.Order.Policy.{
  ProductPolicyDto, ProductPolicyModel, validate, check_items, check_item,
}
use e_commerce.Order.Policy as Policy
use e_commerce.Order.Policy.Limits.{IsSound, update-IsSound}
use e_commerce.Order.Policy.Update.{limits_of, update-limits_of}

abbrev payment : ℕ → OrderLinePaidUpdateDto
payment n = record { seller_id = 7; product_id = 3; attr_set_seq = 0; qty = n }

abbrev pub return_req : ℕ → ℕ → OrderLineReturnReqDto
return_req pid n = record { seller_id = 7; product_id = pid; attr_set_seq = 0; quantity = n }

filter_requests-Filters_example :
    Filters
      (millis_chrono.trunc_to 20_500 min_secs_intvl_req)
      (return_req 3 2 ∷ return_req 4 1 ∷ [])
      (line 3 5 0 ∷ line 4 2 0 ∷ [])
      []
      (filter_requests 20_500
        (return_req 3 2 ∷ return_req 4 1 ∷ [])
        (line 3 5 0 ∷ line 4 2 0 ∷ [])
        [])
filter_requests-Filters_example =
    filter_requests-Filters 20_500 (return_req 3 2 ∷ return_req 4 1 ∷ [])
      (line 3 5 0 ∷ line 4 2 0 ∷ []) [] (ground arith)

-- Two requests of 4 for the same line, which reserves 5.
filter_requests_twice_example :
    filter_requests 20_500 (return_req 3 4 ∷ return_req 3 4 ∷ []) (line 3 5 0 ∷ []) []
    ≡ returned (
        ok (
          record { id_ = line_id 3; qty = (18_000, 4, record { unit = 20; total = 80 }) ∷ [] }
          ∷ record { id_ = line_id 3; qty = (18_000, 4, record { unit = 20; total = 80 }) ∷ [] }
          ∷ []))
unfolding new_entry mul32 compare_raw num_reserved
filter_requests_twice_example =
    filter_requests_twice 20_500 (return_req 3 4) (return_req 3 4) (line 3 5 0) (line 3 5 0 ∷ [])
      refl refl (refl, omega arith, omega arith) (refl, omega arith, omega arith)

abbrev cart : CartModel
cart = record {
  owner = 1;
  seq_num = 0;
  title = "old";
  saved_lines = record { id_ = record { store_id = 7; product_id = 3 }; qty_req = 2 } ∷ [];
  new_lines = [];
}

abbrev cart_line : ℕ → ℕ → CartLineDto
cart_line pid n = record { seller_id = 7; product_id = pid; quantity = n }

abbrev cart_req : CartDto
cart_req = record { title = "new"; lines = cart_line 3 5 ∷ cart_line 4 1 ∷ cart_line 3 6 ∷ [] }

update-quantity_of_example :
    let m' = Cart.update cart_req cart in
    (m'.title ≡ "new")
    × (m'.owner ≡ 1)
    × (m'.seq_num ≡ 0)
    × (map (λ l. l.id_) m'.saved_lines ≡ record { store_id = 7; product_id = 3 } ∷ [])
    × (m'.new_lines ≡ not_saved cart.saved_lines cart_req.lines)
    × (quantity_of 7 3 m'.saved_lines ≡ some 6)
update-quantity_of_example = update-quantity_of cart_req cart 7 3

abbrev policy_req : ℕ → ℕ → ProductPolicyDto
policy_req pid secs = record {
  product_id = pid;
  auto_cancel_secs = secs;
  warranty_hours = 100;
  max_num_rsv = some 10;
  min_num_rsv = some 2;
}

abbrev policies : List ProductPolicyModel
policies =
    record {
      product_id = 3;
      auto_cancel_secs = 5;
      warranty_hours = 5;
      max_num_rsv = 4;
      min_num_rsv = 1;
      is_create = false;
    }
    ∷ []

update-IsSound_example :
    All IsSound (Policy.update (policy_req 3 60 ∷ policy_req 4 70 ∷ []) policies)
unfolding validate check_items check_item
update-IsSound_example =
    update-IsSound (policy_req 3 60 ∷ policy_req 4 70 ∷ []) policies refl (ground arith)

update-limits_of_example :
    limits_of 4 (Policy.update (policy_req 4 60 ∷ policy_req 4 70 ∷ []) policies)
    ≡ some (60, 100, 10, 2)
update-limits_of_example = update-limits_of (policy_req 4 60 ∷ policy_req 4 70 ∷ []) policies 4
