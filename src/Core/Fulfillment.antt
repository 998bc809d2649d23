-- ===== src/Core/Fulfillment.antt =====
-- services/core/internal/handler/pickup_delivery.go: requests for a pickup or a delivery, and
-- their progress.
pub mod Effect
pub mod Inv
use laundry_platform.Base.{
  ℕ, String, List, [], ◌∷◌, ◌++◌, Option, none, some, Bool, true, false, ◌&&◌, ◌||◌, not, str_eq,
  find_key, update_key, is_some, exists, if◌then◌else◌,
}
use laundry_platform.Db.{
  M, Exec, applied, duplicate_key, refused_row, ◌>>=◌, ◌>>◌, pure, respond, respond_if, row_or,
  done_or, query_pool, exec_pool, query_tx, exec_tx, begin_tx, commit, need,
}
use laundry_platform.Shared.HttpAuth.{Principal}
use laundry_platform.Core.OrderState.{Status, created, received, ready, delivered, status_eq}
use laundry_platform.Core.Tables.{Tables, Fulfillment, order_key}
use laundry_platform.Core.Response.{
  Response, error, json, internal_error, fulfillment_body, fulfillment_update_body, Handler,
}
use laundry_platform.Core.Transition.{transition_status_tx, ptr}

-- The two tables that `updateFulfillment` is called with.
pub data Table : Type 0 where
  pickups deliveries : Table

abbrev pub fulfillment_key : Fulfillment → String
fulfillment_key f = f.id

unfoldable pub rows_of : Table → Tables → List Fulfillment
rows_of pickups t = t.pickup_requests
rows_of deliveries t = t.delivery_requests

unfoldable pub with_rows : Table → List Fulfillment → Tables → Tables
with_rows pickups fs t = record t { pickup_requests = fs }
with_rows deliveries fs t = record t { delivery_requests = fs }

-- INSERT INTO ... (id, order_id, address_id, notes): one request for an order, of an order that is
-- there. The reference of `address_id` is left out.
unfoldable pub insert_request : Table → Fulfillment → Tables → Exec Tables
insert_request table f t =
    if exists (λ (x : Fulfillment). str_eq x.id f.id || str_eq x.order_id f.order_id)
      (rows_of table t)
    then duplicate_key
    else if is_some (find_key order_key f.order_id t.orders)
    then applied 1 (with_rows table (rows_of table t ++ f ∷ []) t)
    else refused_row

unfoldable pub new_request : String → String → String → String → Fulfillment
new_request id order_id address_id preferred_window = record {
  id = id;
  order_id = order_id;
  address_id = ptr address_id;
  status = "REQUESTED";
  scheduled_at = none;
  completed_at = none;
  notes = ptr preferred_window;
}

unfoldable pub request_pickup : String → String → String → String → Handler Response
request_pickup order_id address_id preferred_window id = do
  inserted ←
      exec_pool (insert_request pickups (new_request id order_id address_id preferred_window))
  done_or (error 409 "PICKUP_ALREADY_REQUESTED") internal_error inserted
  respond (json 201 (fulfillment_body (new_request id order_id address_id preferred_window)))

unfoldable pub request_delivery : String → String → String → String → Handler Response
request_delivery order_id address_id preferred_window id = do
  found ← query_pool (λ t. find_key order_key order_id t.orders)
  order ← row_or (error 404 "NOT_FOUND") internal_error found
  respond_if (not (status_eq order.status ready)) (error 409 "INVALID_STATE")
  inserted ←
      exec_pool (insert_request deliveries (new_request id order_id address_id preferred_window))
  done_or (error 409 "DELIVERY_ALREADY_REQUESTED") internal_error inserted
  respond (json 201 (fulfillment_body (new_request id order_id address_id preferred_window)))

pub record UpdateRequest : Type 0 where
  pub status : String
  pub scheduled_at : Option ℕ

unfoldable pub valid_fulfillment_status : String → Bool
valid_fulfillment_status s = str_eq s "SCHEDULED" || str_eq s "COMPLETED" || str_eq s "CANCELLED"

-- UPDATE ... SET status = $1, scheduled_at = COALESCE($2, scheduled_at), completed_at = $3
unfoldable pub set_progress : Table → String → UpdateRequest → Option ℕ → Tables → Tables
unfolding with_rows rows_of
set_progress table id req completed_at t =
    with_rows table
      (update_key fulfillment_key id
        (λ f. record f {
          status = req.status;
          scheduled_at = elim req.scheduled_at [ none ↦ f.scheduled_at | some at ↦ some at ];
          completed_at = completed_at;
        })
        (rows_of table t))
      t

-- The order follows a completed request, if it still stands where the request expects it.
unfoldable pub follow_order : Bool → String → Status → Status → Principal → Handler (Unit {0})
follow_order false order_id from to principal = pure tt
follow_order true order_id from to principal = do
  found ← query_tx (λ t. find_key order_key order_id t.orders)
  order ← row_or internal_error internal_error found
  need internal_error (
      if status_eq order.status from
      then transition_status_tx order_id from to principal.id none false
      else pure true)

unfoldable pub update_fulfillment :
    Table → Status → Status → String → UpdateRequest → ℕ → Principal → Handler Response
update_fulfillment table from to id req now principal = do
  respond_if (not (valid_fulfillment_status req.status)) (error 422 "VALIDATION_ERROR")
  need internal_error begin_tx
  found ← query_tx (λ t. find_key fulfillment_key id (rows_of table t))
  f ← row_or (error 404 "NOT_FOUND") internal_error found
  updated ← exec_tx (λ t.
      applied 1
        (set_progress table id req (if str_eq req.status "COMPLETED" then some now else none) t))
  done_or internal_error internal_error updated
  follow_order (str_eq req.status "COMPLETED") f.order_id from to principal
  need internal_error commit
  respond (
      json 200 (
        fulfillment_update_body id f.order_id req.status
          (if str_eq req.status "COMPLETED" then some now else none)))

unfoldable pub update_pickup : String → UpdateRequest → ℕ → Principal → Handler Response
update_pickup = update_fulfillment pickups created received

unfoldable pub update_delivery : String → UpdateRequest → ℕ → Principal → Handler Response
update_delivery = update_fulfillment deliveries ready delivered
