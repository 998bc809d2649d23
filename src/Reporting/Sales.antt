-- ===== src/Reporting/Sales.antt =====
-- services/reporting/internal/handler/events.go: the two statements INSERT ... ON CONFLICT DO
-- UPDATE, and the update of the refunded amount. A sum that does not fit BIGINT, and a count that
-- does not fit INT, is an error.
pub mod Lookup
use laundry_platform.Base.{
  ℕ, ◌+◌, ◌^◌, String, List, [], ◌∷◌, Option, none, some, Bool, ◌&&◌, str_eq, ltb, if◌then◌else◌,
}
use laundry_platform.Base.Int.{ℤ, pos, ◌+ℤ◌, fits64}
use laundry_platform.Reporting.Tables.{DailySales, RefundSummary}

unfoldable pub is_at : String → String → DailySales → Bool
is_at date outlet x = str_eq x.sales_date date && str_eq x.outlet_id outlet

abbrev pub cons_some : {A : Type 0} → A → Option (List A) → Option (List A)
cons_some x none = none
cons_some x (some xs) = some (x ∷ xs)

abbrev pub new_sales : String → String → ℤ → DailySales
new_sales date outlet amount = record {
  sales_date = date;
  outlet_id = outlet;
  gross_amount = amount;
  refunded_amount = pos 0;
  order_count = 1;
}

abbrev pub more_sales : ℤ → DailySales → DailySales
more_sales amount x = record x {
  gross_amount = x.gross_amount +ℤ amount;
  order_count = x.order_count + 1;
}

unfoldable pub add_sale : String → String → ℤ → List DailySales → Option (List DailySales)
unfolding is_at
add_sale date outlet amount [] = some (new_sales date outlet amount ∷ [])
add_sale date outlet amount (x ∷ xs) =
    let rest = add_sale date outlet amount xs in
    if is_at date outlet x
    then (if fits64 (x.gross_amount +ℤ amount) && ltb (x.order_count + 1) (2 ^ 31)
        then some (more_sales amount x ∷ xs)
        else none)
    else cons_some x rest

-- UPDATE rpt_daily_outlet_sales SET refunded_amount = refunded_amount + $1 WHERE ...
unfoldable pub add_refunded : String → String → ℤ → List DailySales → Option (List DailySales)
unfolding is_at
add_refunded date outlet amount [] = some []
add_refunded date outlet amount (x ∷ xs) =
    let rest = add_refunded date outlet amount xs in
    if is_at date outlet x
    then (if fits64 (x.refunded_amount +ℤ amount)
        then some (record x { refunded_amount = x.refunded_amount +ℤ amount } ∷ xs)
        else none)
    else cons_some x rest

unfoldable pub add_refund : String → String → ℤ → List RefundSummary → Option (List RefundSummary)
add_refund date outlet amount [] = some (
    record { period_date = date; outlet_id = outlet; refund_count = 1; refund_amount = amount }
    ∷ [])
add_refund date outlet amount (x ∷ xs) =
    let rest = add_refund date outlet amount xs in
    if str_eq x.period_date date && str_eq x.outlet_id outlet
    then (if fits64 (x.refund_amount +ℤ amount) && ltb (x.refund_count + 1) (2 ^ 31)
        then some (
            record x {
              refund_count = x.refund_count + 1;
              refund_amount = x.refund_amount +ℤ amount;
            }
            ∷ xs)
        else none)
    else cons_some x rest
