-- ===== src/Payment/Simulate.antt =====
-- services/payment/internal/handler/simulate.go, `SimulateGatewayCallback`.
pub mod Effect
use laundry_platform.Base.{
  ℕ, String, List, ◌∷◌, Option, none, some, Bool, true, false, ◌&&◌, ◌||◌, not, str_eq, exists,
  find_key, update_key, if◌then◌else◌,
}
use laundry_platform.Db.{
  M, Exec, applied, duplicate_key, ◌>>=◌, ◌>>◌, pure, respond, respond_if, row_or, done_or,
  query_pool, exec_tx, begin_tx, commit, need,
}
use laundry_platform.Payment.Tables.{
  Tables, Payment, Status, paid, failed, Transaction, OutboxRow, Response, error, json,
  internal_error, payment_body, Handler, payment_key, is_paid, is_pending, log_transaction,
  write_outbox_event,
}
use laundry_platform.Payment.Create.{payment_event}

-- `req.Outcome`: PAID, FAILED, or any other text.
pub data Outcome : Type 0 where
  became_paid became_failed invalid : Outcome

abbrev pub is_invalid : Outcome → Bool
is_invalid invalid = true
is_invalid _ = false

abbrev pub status_of : Outcome → Status
status_of became_paid = paid
status_of _ = failed

abbrev pub paid_at_of : Outcome → ℕ → Option ℕ
paid_at_of became_paid now = some now
paid_at_of _ now = none

abbrev pub settled : Outcome → ℕ → Payment → Payment
settled o now p = record p { status = status_of o; paid_at = paid_at_of o now }

-- UPDATE payments SET status = $1, paid_at = $2 WHERE id = $3, with one PAID row for an order.
unfoldable pub settle : String → Payment → Outcome → ℕ → Tables → Exec Tables
settle id p o now t =
    if is_paid (status_of o)
      && exists
          (λ (x : Payment).
            str_eq x.order_id p.order_id && is_paid x.status && not (str_eq x.id id))
          t.payments
    then duplicate_key
    else applied 1 (record t { payments = update_key payment_key id (settled o now) t.payments })

abbrev pub settle_log : String → Payment → Outcome → Transaction
settle_log id p o = record {
  payment_id = id;
  transaction_type = "CHARGE";
  amount = p.amount;
  status = if is_paid (status_of o) then "SUCCESS" else "FAILED";
}

abbrev pub settle_event : String → Payment → Outcome → OutboxRow
settle_event id p o = record {
  aggregate_id = id;
  event_type = if is_paid (status_of o) then "payment.paid" else "payment.failed";
  order_id = p.order_id;
  refund_id = "";
  amount = p.amount;
}

unfoldable pub simulate_gateway_callback : String → String → Outcome → ℕ → Handler Response
simulate_gateway_callback provider_name id outcome now = do
  respond_if (not (str_eq provider_name "DUMMY")) (error 404 "NOT_FOUND")
  respond_if (is_invalid outcome) (error 422 "VALIDATION_ERROR")
  found ← query_pool (λ t. find_key payment_key id t.payments)
  p ← row_or (error 404 "NOT_FOUND") (error 404 "NOT_FOUND") found
  respond_if (not (str_eq p.provider "DUMMY")) (error 409 "NOT_A_GATEWAY_PAYMENT")
  respond_if (not (is_pending p.status)) (error 409 "INVALID_STATE")
  need internal_error begin_tx
  updated ← exec_tx (settle id p outcome now)
  done_or (error 409 "ORDER_ALREADY_PAID") internal_error updated
  logged ← exec_tx (λ t. applied 1 (log_transaction (settle_log id p outcome) t))
  done_or internal_error internal_error logged
  write_outbox_event (settle_event id p outcome)
  need internal_error commit
  respond (json 200 (payment_body (settled outcome now p)))
