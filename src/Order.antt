-- ===== src/Order.antt =====
-- The order service: services/order.
pub mod Dto
pub mod Line
pub mod Auth
pub mod Shipping
pub mod Currency
pub mod Replica
pub mod Return
pub mod Cart
pub mod Policy
pub mod Stock
pub mod Price
pub mod Create
pub mod UseCase
pub mod Tests
