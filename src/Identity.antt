-- ===== src/Identity.antt =====
-- The Identity service: sessions of the staff.
pub mod Staff
mod Tests
