-- ===== src/Reporting/Tables.antt =====
-- Reporting's tables (services/reporting/migrations), as far as the events' handlers write them.
-- A day is the text that a date column shows; a moment is a number.
use laundry_platform.Base.{ℕ, String, List, ◌∷◌, Option, Bool, exists, str_eq, if◌then◌else◌}
use laundry_platform.Base.Int.{ℤ}

pub record Summary : Type 0 where
  pub order_id : String
  pub order_code : String
  pub outlet_id : String
  pub customer_id : String
  pub status : String
  pub total_amount : Option ℤ
  pub created_at : ℕ
  pub completed_at : Option ℕ

pub record DailySales : Type 0 where
  pub sales_date : String
  pub outlet_id : String
  pub gross_amount : ℤ
  pub refunded_amount : ℤ
  pub order_count : ℕ

pub record RefundSummary : Type 0 where
  pub period_date : String
  pub outlet_id : String
  pub refund_count : ℕ
  pub refund_amount : ℤ

pub record Tables : Type 0 where
  pub order_summary : List Summary
  pub daily_outlet_sales : List DailySales
  pub refund_summary : List RefundSummary
  pub processed_events : List String

abbrev pub summary_key : Summary → String
summary_key s = s.order_id

unfoldable pub processed : String → Tables → Bool
processed event_id t = exists (str_eq event_id) t.processed_events

-- INSERT INTO processed_events ... ON CONFLICT DO NOTHING
unfoldable pub mark : String → Tables → Tables
unfolding processed
mark event_id t =
    if processed event_id t
    then t
    else record t { processed_events = event_id ∷ t.processed_events }
