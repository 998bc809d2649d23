-- ===== src/Core/Weigh.antt =====
-- services/core/internal/handler/orders.go, `WeighItem`.
pub mod Effect
pub mod Inv
use laundry_platform.Base.{
  ℕ, String, Option, none, some, Bool, true, false, ◌&&◌, ◌||◌, not, str_eq, find_key, update_key,
  if◌then◌else◌,
}
use laundry_platform.Base.Int.{ℤ, pos}
use laundry_platform.Db.{
  M, Exec, applied, refused_row, ◌>>=◌, ◌>>◌, pure, respond_if, row_or, done_or, query_tx, exec_tx,
  begin_tx, need,
}
use laundry_platform.Shared.HttpAuth.{Principal}
use laundry_platform.Core.OrderState.{Status, received, weighing, status_eq}
use laundry_platform.Core.Tables.{Tables, Float64, Order, OrderItem, order_key, item_key}
use laundry_platform.Core.Float.{FloatOps}
use laundry_platform.Core.Response.{Response, error, internal_error, Handler}
use laundry_platform.Core.Transition.{transition_status_tx}
use laundry_platform.Core.Fetch.{commit_and_show}

-- SELECT o.status, oi.is_locked, oi.unit_price_snapshot FROM order_items oi JOIN orders o ...
pub record WeighRow : Type 0 where
  pub status : Status
  pub is_locked : Bool
  pub unit_price : ℤ

abbrev joined : String → Option OrderItem → Option Order → Option WeighRow
joined order_id (some i) (some o) =
    if str_eq i.order_id order_id
    then some
        (record { status = o.status; is_locked = i.is_locked; unit_price = i.unit_price_snapshot })
    else none
joined order_id (some i) none = none
joined order_id none o = none

unfoldable pub weigh_row : String → String → Tables → Option WeighRow
weigh_row order_id item_id t =
    joined order_id (find_key item_key item_id t.order_items) (find_key order_key order_id t.orders)

-- UPDATE order_items SET actual_weight_kg = $1, subtotal = $2 WHERE id = $3
unfoldable pub weight_rows : Option Float64 → String → ℤ → Tables → Exec Tables
weight_rows none item_id subtotal t = refused_row
weight_rows (some w) item_id subtotal t = applied 1 (record t {
  order_items =
      update_key item_key item_id
        (λ i. record i { actual_weight_kg = some w; subtotal = some subtotal }) t.order_items;
})

unfoldable pub set_weight : FloatOps → String → Float64 → ℤ → Tables → Exec Tables
unfolding weight_rows
set_weight ops item_id weight subtotal t = weight_rows (ops.numeric_10_3 weight) item_id subtotal t

-- int64(math.Round(weight * float64(unitPrice)))
unfoldable pub item_subtotal : FloatOps → Float64 → ℤ → ℤ
item_subtotal ops weight unit_price = ops.round_int64 (ops.mul weight (ops.of_int64 unit_price))

unfoldable pub weigh_item : FloatOps → String → String → Float64 → Principal → Handler Response
weigh_item ops order_id item_id weight principal = do
  respond_if (ops.lt weight (ops.of_int64 (pos 0))) (error 422 "VALIDATION_ERROR")
  need internal_error begin_tx
  found ← query_tx (weigh_row order_id item_id)
  r ← row_or (error 404 "NOT_FOUND") internal_error found
  respond_if (not (status_eq r.status received) && not (status_eq r.status weighing))
      (error 409 "INVALID_STATE")
  respond_if r.is_locked (error 409 "ITEM_LOCKED")
  updated ← exec_tx (set_weight ops item_id weight (item_subtotal ops weight r.unit_price))
  done_or internal_error internal_error updated
  need internal_error (
      if status_eq r.status received
      then transition_status_tx order_id received weighing principal.id none false
      else pure true)
  commit_and_show order_id
