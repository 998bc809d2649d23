-- ===== src/Payment/Tables.antt =====
-- Payment's tables (services/payment/migrations), the answers of its handlers, and the outbox
-- writer of services/payment/internal/handler/outbox_writer.go.
use laundry_platform.Base.{ℕ, String, List, ◌∷◌, Option, Bool, true, false}
use laundry_platform.Base.Int.{ℤ}
use laundry_platform.Db.{M, applied, ◌>>=◌, pure, exec_tx}

-- The four values of `payments.status`; `unknown` is any other text that a provider may answer.
pub data Status : Type 0 where
  pending paid failed refunded unknown : Status

pub data RefundStatus : Type 0 where
  requested approved processing completed failed rejected : RefundStatus

pub record Payment : Type 0 where
  pub id : String
  pub payment_code : String
  pub order_id : String
  pub customer_id : String
  pub amount : ℤ
  pub method : String
  pub status : Status
  pub paid_at : Option ℕ
  pub provider : String
  pub provider_ref : Option String
  pub checkout_url : Option String
  pub qr_string : Option String

pub record Transaction : Type 0 where
  pub payment_id : String
  pub transaction_type : String
  pub amount : ℤ
  pub status : String

pub record Refund : Type 0 where
  pub id : String
  pub refund_code : String
  pub payment_id : String
  pub order_id : String
  pub amount : ℤ
  pub status : RefundStatus
  pub reason : String
  pub requested_by : String
  pub approved_by : Option String
  pub processed_at : Option ℕ

-- The payload's order, refund and amount; a field that an event lacks is empty.
pub record OutboxRow : Type 0 where
  pub aggregate_id : String
  pub event_type : String
  pub order_id : String
  pub refund_id : String
  pub amount : ℤ

-- The newest row of the log and of the outbox stands first.
pub record Tables : Type 0 where
  pub payments : List Payment
  pub payment_transactions : List Transaction
  pub refunds : List Refund
  pub outbox_events : List OutboxRow

pub data Body : Type 0 where
  payment_body : Payment → Body
  refund_body : Refund → Body

pub data Response : Type 0 where
  error : ℕ → String → Response
  json : ℕ → Body → Response

abbrev pub internal_error : Response
internal_error = error 500 "INTERNAL_ERROR"

abbrev pub Handler : Type 0 → Type 0
Handler A = M Tables Response A

abbrev pub payment_key : Payment → String
payment_key p = p.id

abbrev pub refund_key : Refund → String
refund_key r = r.id

abbrev pub is_paid : Status → Bool
is_paid paid = true
is_paid _ = false

-- The CHECK of `payments.status`.
abbrev pub is_known : Status → Bool
is_known unknown = false
is_known _ = true

abbrev pub is_pending : Status → Bool
is_pending pending = true
is_pending _ = false

abbrev pub is_requested : RefundStatus → Bool
is_requested requested = true
is_requested _ = false

abbrev pub log_transaction : Transaction → Tables → Tables
log_transaction x t = record t { payment_transactions = x ∷ t.payment_transactions }

abbrev pub announce : OutboxRow → Tables → Tables
announce e t = record t { outbox_events = e ∷ t.outbox_events }

-- An outbox write whose error is logged and otherwise ignored.
unfoldable pub write_outbox_event : OutboxRow → Handler (Unit {0})
write_outbox_event e = do sent ← exec_tx (λ t. applied 1 (announce e t)); pure tt
