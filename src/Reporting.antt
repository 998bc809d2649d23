-- ===== src/Reporting.antt =====
-- The Reporting service: projections of the other services' events.
pub mod Tables
pub mod Sales
pub mod Events
mod Tests
