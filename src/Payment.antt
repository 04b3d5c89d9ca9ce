-- ===== src/Payment.antt =====
-- The payment service: services/payment.
pub mod Auth
pub mod Amount
pub mod OrderReplica
pub mod Charge
pub mod Refund
pub mod Tests
