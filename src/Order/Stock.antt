-- ===== src/Order/Stock.antt =====
-- Stock levels of the order service: services/order/src/model/stock_level.rs.
pub mod Quantity
pub mod Store
pub mod Level
