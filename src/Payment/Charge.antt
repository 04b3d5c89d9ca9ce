-- ===== src/Payment/Charge.antt =====
-- Charges of a buyer: services/payment/src/model/charge.rs.
pub mod Line
pub mod RefundMap
pub mod Token
pub mod State
pub mod Create
pub mod Request
pub mod Refresh
