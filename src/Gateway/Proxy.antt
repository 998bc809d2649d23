-- ===== src/Gateway/Proxy.antt =====
-- gateway/internal/proxy/proxy.go: the routing table and the choice of a route by the longest
-- prefix. The reverse proxies themselves are a library's.
pub mod Choice
use Prim.Native.String.{len}
use laundry_platform.Base.{
  String, List, [], ◌∷◌, Option, none, some, Bool, true, ◌&&◌, ltb, is_some, if◌then◌else◌,
}
use laundry_platform.Base.Text.{cut_prefix}

pub record Route : Type 0 where
  pub prefix : String
  pub upstream : String

abbrev route : String → String → Route
route p u = record { prefix = p; upstream = u }

unfoldable pub routes : String → String → String → String → List Route
routes identity core payment reporting =
    route "/api/v1/auth" identity
    ∷ route "/api/v1/customer-auth" identity
    ∷ route "/api/v1/users" identity
    ∷ route "/api/v1/customers" core
    ∷ route "/api/v1/outlets" core
    ∷ route "/api/v1/services" core
    ∷ route "/api/v1/pricing" core
    ∷ route "/api/v1/settings/tax-rate" core
    ∷ route "/api/v1/orders" core
    ∷ route "/api/v1/pickups" core
    ∷ route "/api/v1/deliveries" core
    ∷ route "/api/v1/payments" payment
    ∷ route "/api/v1/refunds" payment
    ∷ route "/api/v1/reports" reporting
    ∷ []

unfoldable pub has_prefix : String → String → Bool
has_prefix path prefix = is_some (cut_prefix prefix path)

unfoldable pub matches : String → Route → Bool
matches path rt = ltb 0 (len rt.prefix) && has_prefix path rt.prefix

-- `best == nil || len(rt.prefix) > len(best.prefix)`.
unfoldable pub is_better : Route → Option Route → Bool
is_better rt none = true
is_better rt (some best) = ltb (len best.prefix) (len rt.prefix)

-- The loop over the routes, and `none` for `http.NotFound`.
unfoldable pub best_of : String → Option Route → List Route → Option Route
best_of path best [] = best
best_of path best (rt ∷ rts) =
    best_of path (if matches path rt && is_better rt best then some rt else best) rts

unfoldable pub route_for : List Route → String → Option Route
route_for rts path = best_of path none rts
