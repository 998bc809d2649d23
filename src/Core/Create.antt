-- ===== src/Core/Create.antt =====
-- services/core/internal/handler/orders.go, `CreateOrder`.
use laundry_platform.Base.{
  ℕ, ◌+◌, String, List, [], ◌∷◌, ◌++◌, Option, none, some, Bool, false, ◌||◌, not, str_eq, find,
  find_key, is_some, exists, if◌then◌else◌,
}
use laundry_platform.Base.Int.{ℤ, pos, ◌+₆₄◌, leb_ℤ}
use laundry_platform.Db.{
  Fetch, Exec, row, no_rows, unreadable, applied, duplicate_key, refused_row, ◌>>=◌, ◌>>◌, pure,
  respond, row_or, done_or, query_tx, exec_tx,
}
use laundry_platform.Core.OrderState.{created}
use laundry_platform.Core.Tables.{
  Tables, Float64, Order, Service, Customer, unpaid, order_key, item_key,
}
use laundry_platform.Core.Float.{FloatOps}
use laundry_platform.Core.Response.{Response, error, internal_error, Handler}
use laundry_platform.Core.Pricing.{active_price_tx}

pub record ItemRequest : Type 0 where
  pub service_id : String
  pub estimated_weight_kg : Option Float64

pub record CreateRequest : Type 0 where
  pub customer_id : String
  pub customer_name : String
  pub customer_phone : String
  pub outlet_id : String
  pub source : String
  pub fulfillment_type : String
  pub items : List ItemRequest
  pub pickup_requested : Bool
  pub delivery_requested : Bool
  pub discount_amount : Option ℤ
  pub notes : Option String

-- What `uuid.New`, `bizid` and the tables' defaults generate during one request.
pub record Fresh : Type 0 where
  pub customer_id : String
  pub customer_code : String
  pub order_id : String
  pub order_code : String
  pub item_ids : ℕ → String
  pub pickup_id : String
  pub delivery_id : String

unfoldable pub valid_source : String → Bool
valid_source s = str_eq s "WEBSITE" || str_eq s "POS" || str_eq s "WHATSAPP"

unfoldable pub valid_fulfillment : String → Bool
valid_fulfillment s =
    str_eq s "WALK_IN" || str_eq s "PICKUP" || str_eq s "DELIVERY" || str_eq s "PICKUP_AND_DELIVERY"

pub record Prepared : Type 0 where
  pub id : String
  pub service_id : String
  pub name : String
  pub unit : String
  pub estimated_weight_kg : Option Float64
  pub unit_price : ℤ

-- The running sum, and whether every item so far has an estimate.
pub record Estimate : Type 0 where
  pub sum : ℤ
  pub have : Bool

unfoldable pub add_estimate : FloatOps → Option Float64 → ℤ → Estimate → Estimate
add_estimate ops none price e = record e { have = false }
add_estimate ops (some w) price e = record e {
  sum = e.sum +₆₄ ops.round_int64 (ops.mul w (ops.of_int64 price));
}

abbrev pub unavailable : Response
unavailable = error 422 "VALIDATION_ERROR"

-- `errors.Is(err, pgx.ErrNoRows) || !isActive`: after any other error `isActive` is false as well.
unfoldable pub active_service : Fetch Service → Handler Service
active_service (row s) = if s.is_active then pure s else respond unavailable
active_service no_rows = respond unavailable
active_service unreadable = respond unavailable

-- The first loop, with a fresh id for each item.
unfoldable pub prepare :
    FloatOps
    → String
    → List ItemRequest
    → (ℕ → String)
    → Estimate
    → Handler (List Prepared × Estimate)
prepare ops outlet_id [] ids e = pure ([], e)
prepare ops outlet_id (i ∷ is) ids e = do
  found ← query_tx (λ t. find (λ (s : Service). str_eq s.id i.service_id) t.services)
  s ← active_service found
  priced ← active_price_tx i.service_id outlet_id
  price ← row_or unavailable unavailable priced
  rest ←
      prepare ops outlet_id is (λ n. ids (n + 1)) (add_estimate ops i.estimated_weight_kg price e)
  pure (
    (record {
      id = ids 0;
      service_id = i.service_id;
      name = s.name;
      unit = s.unit;
      estimated_weight_kg = i.estimated_weight_kg;
      unit_price = price;
    })
        ∷ rest.0,
    rest.1,
  )

-- INSERT INTO orders ..., with the table's keys, references and checks, and its defaults.
unfoldable pub insert_order : Order → Tables → Exec Tables
insert_order o t =
    if is_some (find_key order_key o.id t.orders)
      || exists (λ (x : Order). str_eq x.order_code o.order_code) t.orders
    then duplicate_key
    else if not (exists (λ (c : Customer). str_eq c.id o.customer_id) t.customers)
        || not (exists (λ x. str_eq x.id o.current_outlet_id) t.outlets)
        || not (leb_ℤ (pos 0) o.discount_amount)
    then refused_row
    else applied 1 (record t { orders = t.orders ++ o ∷ [] })

unfoldable pub new_order : CreateRequest → Fresh → String → String → Estimate → Order
new_order req fresh customer_id outlet_id e = record {
  id = fresh.order_id;
  order_code = fresh.order_code;
  customer_id = customer_id;
  current_outlet_id = outlet_id;
  source = req.source;
  fulfillment_type = if str_eq req.fulfillment_type "" then "WALK_IN" else req.fulfillment_type;
  status = created;
  payment_status = unpaid;
  estimated_total_amount = if e.have then some e.sum else none;
  subtotal_amount = none;
  discount_amount = elim req.discount_amount [ none ↦ pos 0 | some d ↦ d ];
  tax_amount = pos 0;
  tax_rate_snapshot = 0;
  pickup_fee = pos 0;
  delivery_fee = pos 0;
  total_amount = none;
  notes = req.notes;
}

abbrev pub weight_column : FloatOps → Option Float64 → Option (Option Float64)
weight_column ops none = some none
weight_column ops (some w) = elim (ops.numeric_10_3 w) [ none ↦ none | some v ↦ some (some v) ]

unfoldable pub insert_item : FloatOps → String → Prepared → Tables → Exec Tables
insert_item ops order_id p t = elim (weight_column ops p.estimated_weight_kg) [
  | none ↦ refused_row
  | some w ↦
      if is_some (find_key item_key p.id t.order_items)
      then duplicate_key
      else applied 1 (record t {
        order_items =
            t.order_items
            ++ (record {
              id = p.id;
              order_id = order_id;
              service_id = p.service_id;
              service_name_snapshot = p.name;
              unit = p.unit;
              estimated_weight_kg = w;
              actual_weight_kg = none;
              unit_price_snapshot = p.unit_price;
              subtotal = none;
              is_locked = false;
            })
              ∷ [];
      })
]

-- The second loop.
unfoldable pub insert_items : FloatOps → String → List Prepared → Handler (Unit {0})
insert_items ops order_id [] = pure tt
insert_items ops order_id (p ∷ ps) = do
  inserted ← exec_tx (insert_item ops order_id p)
  done_or internal_error internal_error inserted
  insert_items ops order_id ps
