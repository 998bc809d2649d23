-- ===== src/Core/Access.antt =====
-- services/core/internal/handler/orders.go, `GetOrder`, `GetOrderInternal` and `canAccessOrder`.
pub mod Effect
use laundry_platform.Base.{
  String, Option, none, some, Bool, true, false, not, str_eq, find, if◌then◌else◌,
}
use laundry_platform.Db.{
  Fetch, row, no_rows, unreadable, ◌>>=◌, ◌>>◌, pure, respond, respond_if, row_or, query_pool,
}
use laundry_platform.Shared.HttpAuth.{Principal, can_access_outlet}
use laundry_platform.Core.Tables.{Tables, Order, Customer}
use laundry_platform.Core.Response.{Response, Handler, error, json, internal_error, order_body}
use laundry_platform.Core.Fetch.{fetch_order}

-- `identity_account_id = $1`.
abbrev pub has_account : Option String → String → Bool
has_account none account_id = false
has_account (some a) account_id = str_eq a account_id

abbrev pub customer_id_of : Option Customer → Option String
customer_id_of none = none
customer_id_of (some c) = some c.id

unfoldable pub customer_id_for_identity_account : String → Tables → Option String
customer_id_for_identity_account account_id t =
    customer_id_of
      (find (λ (c : Customer). has_account c.identity_account_id account_id) t.customers)

abbrev pub is_row : Fetch String → String → Bool
is_row (row a) b = str_eq a b
is_row no_rows b = false
is_row unreadable b = false

-- `case "CUSTOMER"`.
unfoldable pub is_owner : String → String → Handler Bool
is_owner account_id customer_id = do
  found ← query_pool (customer_id_for_identity_account account_id)
  pure (is_row found customer_id)

unfoldable pub can_access_order : Principal → Order → Handler Bool
can_access_order principal order =
    if str_eq principal.type "STAFF"
    then pure (can_access_outlet principal order.current_outlet_id)
    else if str_eq principal.type "CUSTOMER"
    then is_owner principal.id order.customer_id
    else pure false

unfoldable pub get_order_internal : String → Handler Response
get_order_internal id = do
  out ← fetch_order id
  view ← row_or (error 404 "NOT_FOUND") internal_error out
  respond (json 200 (order_body view))

unfoldable pub get_order : String → Principal → Handler Response
get_order id principal = do
  out ← fetch_order id
  view ← row_or (error 404 "NOT_FOUND") internal_error out
  allowed ← can_access_order principal view.order
  respond_if (not allowed) (error 403 "FORBIDDEN")
  respond (json 200 (order_body view))
