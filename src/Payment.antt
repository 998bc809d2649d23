-- ===== src/Payment.antt =====
-- The Payment service: charges, the simulated gateway and refunds.
pub mod Tables
pub mod Outbox
pub mod Create
pub mod Simulate
pub mod Refunds
mod Tests
