-- ===== src/Order/UseCase.antt =====
-- The use cases of orders: services/order/src/usecase/manage_order.rs.
pub mod Quota
pub mod Validate
pub mod Discard
pub mod Requests
pub mod Place
pub mod Pay
