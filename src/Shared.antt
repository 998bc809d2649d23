-- ===== src/Shared.antt =====
-- The Go packages under shared/.
pub mod HttpAuth
pub mod Idempotency
