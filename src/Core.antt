-- ===== src/Core.antt =====
-- The Core service.
pub mod Tables
pub mod OrderState
pub mod Response
pub mod Transition
pub mod Fetch
pub mod Invariant
pub mod Float
pub mod ChangeStatus
pub mod Pricing
pub mod Create
pub mod CreateOrder
pub mod Fulfillment
pub mod Access
pub mod Tax
pub mod Weigh
pub mod Finalize
pub mod PaymentEvents
pub mod Samples
mod Tests
