-- ===== src/Order/Tests/Creation.antt =====
-- Runs on prices and on the making of orders.
use e_commerce.Common.{ℕ, true, false, some, List, [], ◌∷◌, arith}
use e_commerce.Common.Int.{pos, negsuc}
use e_commerce.Common.Chrono.{Millis, millis_chrono}
use e_commerce.Order.Line.{OrderLineModel}
use e_commerce.Order.Tests.{line}
use e_commerce.Order.Policy.{ProductPolicyModel}
use e_commerce.Order.Price.{OrderLineRsvReqDto, ProductPriceModel, str, finalize_price}
use e_commerce.Order.Price.Charge.{Prices, finalize_price-Prices}
use e_commerce.Order.Create.{try_from, try_from_inner}
use e_commerce.Order.Create.Limits.{Creates, try_from-Creates}
use e_commerce.Order.Create.Duplicates.{Makes, try_from_inner-Makes}

-- The product 3 costs 100, and 20 more in red.
abbrev pub price : ProductPriceModel Millis
price = record {
  price = 100;
  start_after = 0;
  end_before = 900_000;
  product_id = 3;
  attributes = record {
    pricing = some (("color-red", pos 20) ∷ ("color-raw", negsuc 4) ∷ []);
    last_update = 4_000;
  };
  is_create = false;
}

abbrev pub request : ℕ → OrderLineRsvReqDto
request n = record {
  seller_id = 7;
  product_id = 3;
  quantity = n;
  applied_attr = some (record { label_id = "color"; value = str "red" } ∷ []);
}

abbrev pub policy : ProductPolicyModel
policy = record {
  product_id = 3;
  auto_cancel_secs = 60;
  warranty_hours = 24;
  max_num_rsv = 10;
  min_num_rsv = 2;
  is_create = false;
}

finalize_price-Prices_example : Prices (request 4) price (finalize_price (request 4) price)
finalize_price-Prices_example = finalize_price-Prices (request 4) price

try_from-Creates_example :
    Creates 8_000 (request 4) policy price (try_from 8_000 (request 4) policy price)
try_from-Creates_example = try_from-Creates 8_000 (request 4) policy price

abbrev lines : List (OrderLineModel Millis)
lines = line 3 5 0 ∷ line 4 1 0 ∷ line 3 2 0 ∷ []

try_from_inner-Makes_example : Makes lines (try_from_inner lines true)
try_from_inner-Makes_example = try_from_inner-Makes lines (omega arith)
