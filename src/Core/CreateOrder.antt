-- ===== src/Core/CreateOrder.antt =====
-- services/core/internal/handler/orders.go, `CreateOrder`: the customer, the outlet, and the
-- transaction.
pub mod Rules
pub mod Effect
pub mod Inv
mod Tests
use laundry_platform.Base.{
  String, List, [], ◌∷◌, ◌++◌, Option, none, Bool, true, false, ◌||◌, not, str_eq, find, exists,
  if◌then◌else◌,
}
use laundry_platform.Base.Int
use laundry_platform.Base.Text.{trim_space}
use laundry_platform.Db.{
  Fetch, Exec, row, no_rows, unreadable, applied, duplicate_key, ◌>>=◌, ◌>>◌, pure, respond,
  respond_if, row_or, done_or, query_pool, exec_pool, exec_tx, begin_tx, commit, need,
}
use laundry_platform.Core.OrderState.{created}
use laundry_platform.Core.Tables.{Tables, Customer, Fulfillment, order_created}
use laundry_platform.Core.Float.{FloatOps}
use laundry_platform.Core.Response.{Response, error, json, internal_error, order_body, Handler}
use laundry_platform.Core.Transition.{insert_history, write_outbox_event}
use laundry_platform.Core.Fetch.{fetch_order}
use laundry_platform.Core.Pricing.{recommended_outlet}
use laundry_platform.Core.Create.{
  CreateRequest, Fresh, valid_source, valid_fulfillment, prepare, insert_order, new_order,
  insert_items,
}

-- INSERT INTO customers ...: the id, the code and the phone are unique.
unfoldable pub insert_customer : Customer → Tables → Exec Tables
insert_customer c t =
    if exists
      (λ (x : Customer).
        str_eq x.id c.id || str_eq x.customer_code c.customer_code || str_eq x.phone c.phone)
      t.customers
    then duplicate_key
    else applied 1 (record t { customers = t.customers ++ c ∷ [] })

unfoldable pub guest : CreateRequest → Fresh → Customer
guest req fresh = record {
  id = fresh.customer_id;
  customer_code = fresh.customer_code;
  name = trim_space req.customer_name;
  phone = trim_space req.customer_phone;
  is_guest = true;
  identity_account_id = none;
}

-- SELECT ... FROM customers WHERE phone = $1
unfoldable pub customer_by_phone : String → Tables → Option Customer
customer_by_phone phone t = find (λ (c : Customer). str_eq c.phone phone) t.customers

unfoldable pub existing_or_guest : CreateRequest → Fresh → Fetch Customer → Handler String
existing_or_guest req fresh (row c) = pure c.id
existing_or_guest req fresh no_rows = do
  inserted ← exec_pool (insert_customer (guest req fresh))
  done_or internal_error internal_error inserted
  pure fresh.customer_id
existing_or_guest req fresh unreadable = respond internal_error

unfoldable pub resolve_customer : CreateRequest → Fresh → Handler String
resolve_customer req fresh = if not (str_eq req.customer_id "") then pure req.customer_id else (do
  respond_if (str_eq (trim_space req.customer_name) "" || str_eq (trim_space req.customer_phone) "")
      (error 422 "VALIDATION_ERROR")
  found ← query_pool (customer_by_phone req.customer_phone)
  existing_or_guest req fresh found)

unfoldable pub resolve_outlet : CreateRequest → Handler String
resolve_outlet req = if not (str_eq req.outlet_id "") then pure req.outlet_id else (do
  found ← query_pool recommended_outlet
  row_or (error 422 "NO_OUTLET_AVAILABLE") (error 422 "NO_OUTLET_AVAILABLE") found)

unfoldable pub new_fulfillment : String → String → Fulfillment
new_fulfillment id order_id = record {
  id = id;
  order_id = order_id;
  address_id = none;
  status = "REQUESTED";
  scheduled_at = none;
  completed_at = none;
  notes = none;
}

-- One request of each kind for an order; the order is one that this transaction inserted.
unfoldable pub insert_pickup : Fulfillment → Tables → Exec Tables
insert_pickup f t =
    if exists (λ (x : Fulfillment). str_eq x.id f.id || str_eq x.order_id f.order_id)
      t.pickup_requests
    then duplicate_key
    else applied 1 (record t { pickup_requests = t.pickup_requests ++ f ∷ [] })

unfoldable pub insert_delivery : Fulfillment → Tables → Exec Tables
insert_delivery f t =
    if exists (λ (x : Fulfillment). str_eq x.id f.id || str_eq x.order_id f.order_id)
      t.delivery_requests
    then duplicate_key
    else applied 1 (record t { delivery_requests = t.delivery_requests ++ f ∷ [] })

-- A write whose error is logged and otherwise ignored.
unfoldable pub attempt_if : Bool → (Tables → Exec Tables) → Handler (Unit {0})
attempt_if false e = pure tt
attempt_if true e = do d ← exec_tx e; pure tt

unfoldable pub create_in_tx : FloatOps → CreateRequest → Fresh → String → String → Handler Response
create_in_tx ops req fresh customer_id outlet_id = do
  need internal_error begin_tx
  prepared ←
      prepare ops outlet_id req.items fresh.item_ids (record { sum = Int.pos 0; have = true })
  inserted ← exec_tx (insert_order (new_order req fresh customer_id outlet_id prepared.1))
  done_or internal_error internal_error inserted
  insert_items ops fresh.order_id prepared.0
  attempt_if true (
      insert_history (record {
        order_id = fresh.order_id;
        from_status = none;
        to_status = created;
        reason = none;
        performed_by = none;
        is_administrative_override = false;
      }))
  attempt_if req.pickup_requested (insert_pickup (new_fulfillment fresh.pickup_id fresh.order_id))
  attempt_if req.delivery_requested
      (insert_delivery (new_fulfillment fresh.delivery_id fresh.order_id))
  sent ←
      write_outbox_event fresh.order_id "order.created"
        (order_created fresh.order_id fresh.order_code customer_id outlet_id)
  need internal_error commit
  out ← fetch_order fresh.order_id
  view ← row_or internal_error internal_error out
  respond (json 201 (order_body view))

unfoldable pub is_empty : {A : Type 0} → List A → Bool
is_empty [] = true
is_empty (x ∷ xs) = false

unfoldable pub create_order : FloatOps → CreateRequest → Fresh → Handler Response
unfolding valid_source
create_order ops req fresh = do
  respond_if (is_empty req.items) (error 422 "VALIDATION_ERROR")
  respond_if (not (valid_source req.source)) (error 422 "VALIDATION_ERROR")
  respond_if
      (not (
        valid_fulfillment
          (if str_eq req.fulfillment_type "" then "WALK_IN" else req.fulfillment_type)))
      (error 422 "VALIDATION_ERROR")
  customer_id ← resolve_customer req fresh
  outlet_id ← resolve_outlet req
  create_in_tx ops req fresh customer_id outlet_id
