-- ===== src/Core/Finalize.antt =====
-- services/core/internal/handler/orders.go, `FinalizeWeighing`, with `activeTaxRateValue` of tax.go.
pub mod Effect
pub mod Total
use laundry_platform.Base.{
  ℕ, String, List, [], ◌∷◌, Option, none, some, Bool, true, false, ◌&&◌, not, str_eq, find,
  find_key, update_key, exists, is_some, if◌then◌else◌, ltb, leb,
}
use laundry_platform.Base.Int.{ℤ, pos, ◌+ℤ◌, ◌+₆₄◌, ◌-₆₄◌, leb_ℤ, fits64}
use laundry_platform.Db
use laundry_platform.Db.{
  M, Exec, applied, refused_row, ◌>>=◌, ◌>>◌, pure, respond_if, row_or, query_pool, query_tx,
  exec_tx, begin_tx, need,
}
use laundry_platform.Core.Tables.{
  Tables, Float64, Order, OrderItem, TaxRate, order_weighed, order_key,
}
use laundry_platform.Core.Float.{FloatOps}
use laundry_platform.Core.Response.{Response, error, internal_error, Handler}
use laundry_platform.Core.Transition.{write_outbox_event}
use laundry_platform.Core.Fetch.{items_of, commit_and_show}

pub record FinalizeRequest : Type 0 where
  pub pickup_fee : Option ℤ
  pub delivery_fee : Option ℤ

unfoldable pub unweighed : OrderItem → Bool
unweighed i = not (is_some i.actual_weight_kg)

unfoldable pub incomplete : String → Tables → Bool
unfolding items_of unweighed
incomplete order_id t = exists unweighed (items_of order_id t)

-- A NULL does not count in a sum.
abbrev pub amount : Option ℤ → ℤ
amount none = pos 0
amount (some a) = a

unfoldable pub sum_subtotals : List OrderItem → ℤ
sum_subtotals [] = pos 0
sum_subtotals (i ∷ is) = amount i.subtotal +ℤ sum_subtotals is

-- COALESCE(SUM(subtotal), 0), which has to fit the int64 that it is scanned into.
unfoldable pub summed : String → Tables → Option ℤ
unfolding items_of sum_subtotals
summed order_id t =
    let total = sum_subtotals (items_of order_id t) in if fits64 total then some total else none

-- SELECT rate_percentage FROM tax_rates WHERE effective_to IS NULL
unfoldable pub active_tax_rate_value : Tables → Option Float64
active_tax_rate_value t = elim (find (λ r. not (is_some r.effective_to)) t.tax_rates) [
  | none ↦ none
  | some r ↦ some r.rate_percentage
]

abbrev pub value_or : Option ℤ → ℤ → ℤ
value_or none d = d
value_or (some a) d = a

-- int64(math.Round(taxRate / 100 * float64(subtotal)))
unfoldable pub tax_of : FloatOps → Float64 → ℤ → ℤ
tax_of ops rate subtotal =
    ops.round_int64 (ops.mul (ops.div rate (ops.of_int64 (pos 100))) (ops.of_int64 subtotal))

-- The amounts that the order is to hold.
pub record Bill : Type 0 where
  pub subtotal : ℤ
  pub tax_rate : Float64
  pub tax : ℤ
  pub pickup_fee : ℤ
  pub delivery_fee : ℤ
  pub total : ℤ

-- total := subtotal - discount + taxAmount + pickupFee + deliveryFee
unfoldable pub bill_of : FloatOps → FinalizeRequest → Order → ℤ → Float64 → Bill
unfolding tax_of
bill_of ops req o subtotal rate =
    let tax = tax_of ops rate subtotal in
    let pickup = value_or req.pickup_fee o.pickup_fee in
    let delivery = value_or req.delivery_fee o.delivery_fee in
    record {
      subtotal = subtotal;
      tax_rate = rate;
      tax = tax;
      pickup_fee = pickup;
      delivery_fee = delivery;
      total = subtotal -₆₄ o.discount_amount +₆₄ tax +₆₄ pickup +₆₄ delivery;
    }

-- The CHECK constraints on the columns that are written.
unfoldable pub bill_checks : Bill → Bool
bill_checks b =
    leb_ℤ (pos 0) b.tax
    && leb_ℤ (pos 0) b.pickup_fee
    && leb_ℤ (pos 0) b.delivery_fee
    && leb_ℤ (pos 0) b.total

unfoldable pub billed_row : Bill → Float64 → Order → Order
billed_row b rate o = record o {
  subtotal_amount = some b.subtotal;
  tax_rate_snapshot = rate;
  tax_amount = b.tax;
  pickup_fee = b.pickup_fee;
  delivery_fee = b.delivery_fee;
  total_amount = some b.total;
}

-- UPDATE orders SET subtotal_amount = $1, ... WHERE id = $7
unfoldable pub bill_rows : Option Float64 → Bool → String → Bill → Tables → Exec Tables
bill_rows none checks order_id b t = refused_row
bill_rows (some rate) false order_id b t = refused_row
bill_rows (some rate) true order_id b t =
    applied 1 (record t { orders = update_key order_key order_id (billed_row b rate) t.orders })

unfoldable pub set_bill : FloatOps → String → Bill → Tables → Exec Tables
unfolding bill_checks bill_rows
set_bill ops order_id b t = bill_rows (ops.numeric_5_2 b.tax_rate) (bill_checks b) order_id b t

-- The error of the outbox write is logged and otherwise ignored.
unfoldable pub finalize_weighing : FloatOps → String → FinalizeRequest → Handler Response
finalize_weighing ops order_id req = do
  need internal_error begin_tx
  checked ← query_tx (λ t. some (incomplete order_id t))
  missing ← row_or internal_error internal_error checked
  respond_if missing (error 409 "INCOMPLETE_WEIGHING")
  sum ← query_tx (summed order_id)
  subtotal ← row_or internal_error internal_error sum
  rated ← query_pool active_tax_rate_value
  rate ← row_or internal_error internal_error rated
  found ← query_tx (λ t. find_key order_key order_id t.orders)
  o ← row_or (error 404 "NOT_FOUND") internal_error found
  updated ← exec_tx (set_bill ops order_id (bill_of ops req o subtotal rate))
  Db.done_or internal_error internal_error updated
  sent ← write_outbox_event order_id "order.weighed" (
      order_weighed order_id (bill_of ops req o subtotal rate).subtotal
        (bill_of ops req o subtotal rate).tax (bill_of ops req o subtotal rate).total)
  commit_and_show order_id
