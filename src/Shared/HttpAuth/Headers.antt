-- ===== src/Shared/HttpAuth/Headers.antt =====
-- shared/httpauth/principal.go, `FromRequest` and the middlewares `RequireAuth`,
-- `RequireStaffRole` and `RequireCustomer`.
use laundry_platform.Base.{String, List, [], Bool, not, str_eq, if◌then◌else◌}
use laundry_platform.Base.Text.{split}
use laundry_platform.Shared.HttpAuth.{Principal, has_any_role}

-- The headers of a request that are read; a header that is not there reads as the empty text.
pub record Headers : Type 0 where
  pub authorization : String
  pub principal_type : String
  pub principal_id : String
  pub roles : String
  pub outlet_ids : String

unfoldable pub listed : String → List String
unfolding split
listed h = if str_eq h "" then [] else split "," h

unfoldable pub from_request : Headers → Principal
from_request h = record {
  type = h.principal_type;
  id = h.principal_id;
  roles = listed h.roles;
  outlet_ids = listed h.outlet_ids;
}

unfoldable pub is_authenticated : Principal → Bool
is_authenticated p = not (str_eq p.type "")

-- What a middleware does with a request: it answers an error, or passes the request on.
pub data Passed : Type 0 where
  refused : String → Passed
  passed : Passed

unfoldable pub require_auth : Headers → Passed
unfolding from_request is_authenticated
require_auth h =
    if not (is_authenticated (from_request h)) then refused "AUTHENTICATION_REQUIRED" else passed

unfoldable pub require_staff_role : List String → Headers → Passed
unfolding from_request
require_staff_role allowed h =
    let p = from_request h in
    if not (str_eq p.type "STAFF")
    then refused "FORBIDDEN"
    else if not (has_any_role p allowed)
    then refused "FORBIDDEN"
    else passed

unfoldable pub require_customer : Headers → Passed
unfolding from_request
require_customer h =
    if not (str_eq (from_request h).type "CUSTOMER") then refused "FORBIDDEN" else passed
