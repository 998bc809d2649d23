-- ===== src/Gateway/Tests.antt =====
-- Runs of the Gateway's parts.
use laundry_platform.Base.{
  ℕ, String, List, [], ◌∷◌, Option, none, some, true, ◌≡◌, refl, find, arith,
}
use laundry_platform.Base.Text.{join, cut_prefix}
use laundry_platform.Shared.HttpAuth.Headers.{Headers, from_request}
use laundry_platform.Gateway.Authn.{
  Claims, authenticate, strip_trusted, set_trusted, with_token, with_claims,
}
use laundry_platform.Gateway.Authn.Effect.{
  Words, Source, principal_of, from_request-set_trusted, authenticate-Source,
}
use laundry_platform.Gateway.Proxy.{Route, routes, route_for, matches, has_prefix}
use laundry_platform.Gateway.Proxy.Choice.{Chosen, independent, route_for-Chosen, route_for-eq-find}
use laundry_platform.Gateway.RateLimit.{Request, passed_on}
use laundry_platform.Gateway.RateLimit.Window.{passed_on-eq-min}

abbrev clerk : Claims
clerk = record {
  subject = "s1";
  principal_type = "STAFF";
  roles = "OWNER" ∷ "CASHIER" ∷ [];
  outlet_ids = "o1" ∷ [];
}

abbrev parse_any : String → Option Claims
parse_any token = some clerk

-- A client that sends headers of its own with its token.
abbrev forged : Headers
forged = record {
  authorization = "Bearer abc";
  principal_type = "STAFF";
  principal_id = "boss";
  roles = "OWNER";
  outlet_ids = "";
}

clerk_roles : Words clerk.roles
clerk_roles = (
  refl,
  (refl, (refl, (refl, (refl, (refl, tt))))),
  (refl, (refl, (refl, (refl, (refl, (refl, (refl, (refl, tt))))))), tt),
)

clerk_outlets : Words clerk.outlet_ids
clerk_outlets = (refl, (refl, (refl, tt)), tt)

from_request-set_trusted_example : from_request (set_trusted clerk forged) ≡ principal_of clerk
from_request-set_trusted_example = from_request-set_trusted clerk forged clerk_roles clerk_outlets

authenticate-Source_example :
    Source parse_any forged (from_request (set_trusted clerk (strip_trusted forged)))
unfolding authenticate strip_trusted set_trusted with_token with_claims cut_prefix join
authenticate-Source_example =
    authenticate-Source parse_any forged (set_trusted clerk (strip_trusted forged)) refl

abbrev table : List Route
table = routes "identity" "core" "payment" "reporting"

route_for-Chosen_example :
    Chosen "/api/v1/customers/7" table (route_for table "/api/v1/customers/7")
route_for-Chosen_example = route_for-Chosen "/api/v1/customers/7" table

independent-table : independent table ≡ true
unfolding independent has_prefix cut_prefix routes
independent-table = refl

route_for-eq-find_example :
    route_for table "/api/v1/customers/7" ≡ find (matches "/api/v1/customers/7") table
route_for-eq-find_example = route_for-eq-find "/api/v1/customers/7" table independent-table

abbrev ask : ℕ → Request
ask now = record { now = now; incr_ok = true; expire_ok = true }

passed_on-eq-min_example : passed_on 2 60 (ask 0 ∷ ask 10 ∷ ask 59 ∷ []) none ≡ 2
unfolding passed_on
passed_on-eq-min_example =
    passed_on-eq-min 2 60 (ask 0) (ask 10 ∷ ask 59 ∷ []) refl
      (refl, omega arith, (refl, omega arith, tt))
