-- ===== src/Payment/Refund.antt =====
-- Refunds: services/payment/src/model/refund.rs.
pub mod Reject
pub mod Resolve
pub mod Line
