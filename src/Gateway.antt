-- ===== src/Gateway.antt =====
-- The Gateway: authentication, routing and the rate limit.
pub mod Authn
pub mod Proxy
pub mod RateLimit
mod Tests
