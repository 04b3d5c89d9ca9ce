-- ===== src/Order/Tests.antt =====
-- Runs of the order service's operations: the witnesses of the theorems.
pub mod Stock
pub mod Requests
pub mod Creation
pub mod UseCases
pub mod Prices
pub mod Shipping
pub mod Quota
pub mod Places
pub mod Payments
use e_commerce.Common.{ℕ, Option, none, List, [], ◌∷◌}
use e_commerce.Common.Chrono.{Millis}
use e_commerce.Order.Line.{OrderLineModel, OrderLineIdentity}

-- A line of the store 7: `n` pieces of the product `pid`, of which `paid` are paid, reserved until
-- 60 s and under warranty until 1000 s.
abbrev pub line_id : ℕ → OrderLineIdentity
line_id pid = record { base = record { store_id = 7; product_id = pid }; attr_set_req = 0 }

abbrev pub line : ℕ → ℕ → ℕ → OrderLineModel Millis
line pid n paid = record {
  id_ = line_id pid;
  price = record { unit = 20; total = 100 };
  attrs_charge = record { pricing = none; last_update = 0 };
  policy = record { reserved_until = 60_000; warranty_until = 1_000_000 };
  qty = record { reserved = n; paid = paid; paid_last_update = none };
}
