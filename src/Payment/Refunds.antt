-- ===== src/Payment/Refunds.antt =====
-- services/payment/internal/handler/refunds.go: requests for a refund, their approval and their
-- rejection.
pub mod Effect
pub mod Request
pub mod Calm
pub mod Twice
use Prim.Native.String.{◌++◌ as append}
use laundry_platform.Base.{
  ℕ, String, List, [], ◌∷◌, ◌++◌, Option, none, some, Bool, true, false, ◌&&◌, ◌||◌, not, str_eq,
  exists, find_key, update_key, is_some, if◌then◌else◌, ◌==◌,
}
use laundry_platform.Base.Int.{ℤ, pos, leb_ℤ}
use laundry_platform.Base.Text.{trim_space}
use laundry_platform.Db
use laundry_platform.Db.{
  M, Exec, applied, duplicate_key, refused_row, Done, done, duplicate, failed, ◌>>=◌, ◌>>◌, pure,
  respond, respond_if, row_or, done_or, query_pool, exec_pool, query_tx, exec_tx, begin_tx, commit,
  need,
}
use laundry_platform.Shared.HttpAuth.{Principal}
use laundry_platform.Payment.Tables.{
  Tables, Payment, Refund, RefundStatus, requested, completed, rejected, refunded, Transaction,
  OutboxRow, Response, error, json, internal_error, refund_body, Handler, payment_key, refund_key,
  is_paid, is_requested, log_transaction, write_outbox_event,
}
use laundry_platform.Payment.Create.{CoreOrder, respond_none}

-- The end of each handler: `fetchRefund` and the refund as JSON.
unfoldable pub show_refund : ℕ → String → Handler Response
show_refund status id = do
  found ← query_pool (λ t. find_key refund_key id t.refunds)
  r ← row_or internal_error internal_error found
  respond (json status (refund_body r))

-- status NOT IN ('REJECTED','FAILED')
abbrev pub is_live : RefundStatus → Bool
is_live rejected = false
is_live RefundStatus.failed = false
is_live _ = true

unfoldable pub already_requested : String → Tables → Bool
already_requested payment_id t =
    exists (λ (r : Refund). str_eq r.payment_id payment_id && is_live r.status) t.refunds

-- INSERT INTO refunds ...: unique id and code, a payment that is there, a positive amount.
unfoldable pub insert_refund : Refund → Tables → Exec Tables
insert_refund r t =
    if is_some (find_key refund_key r.id t.refunds)
      || exists (λ (x : Refund). str_eq x.refund_code r.refund_code) t.refunds
    then duplicate_key
    else if not (is_some (find_key payment_key r.payment_id t.payments)) || leb_ℤ r.amount (pos 0)
    then refused_row
    else applied 1 (record t { refunds = t.refunds ++ r ∷ [] })

unfoldable pub new_refund : String → String → Payment → String → String → Refund
new_refund id code p reason by = record {
  id = id;
  refund_code = code;
  payment_id = p.id;
  order_id = p.order_id;
  amount = p.amount;
  status = requested;
  reason = reason;
  requested_by = by;
  approved_by = none;
  processed_at = none;
}

-- `core_order` is Core's answer for the payment's order, `id` and `code` are generated.
unfoldable pub create_refund :
    String → String → Option CoreOrder → String → String → Principal → Handler Response
create_refund payment_id reason core_order id code principal = do
  respond_if (str_eq payment_id "" || str_eq (trim_space reason) "") (error 422 "VALIDATION_ERROR")
  found ← query_pool (λ t. find_key payment_key payment_id t.payments)
  p ← row_or (error 404 "PAYMENT_NOT_FOUND") internal_error found
  respond_if (not (is_paid p.status)) (error 409 "REFUND_NOT_ELIGIBLE")
  order ← respond_none (error 503 "DEPENDENCY_UNAVAILABLE") core_order
  respond_if (str_eq order.status "CANCELLED") (error 409 "REFUND_NOT_ELIGIBLE")
  checked ← query_pool (λ t. some (already_requested payment_id t))
  known ← row_or internal_error internal_error checked
  respond_if known (error 409 "REFUND_NOT_ELIGIBLE")
  inserted ← exec_pool (insert_refund (new_refund id code p (trim_space reason) principal.id))
  done_or internal_error internal_error inserted
  show_refund 201 id

-- `*req.Amount <= 0 || *req.Amount > defaultAmount`
unfoldable pub bad_amount : Option ℤ → ℤ → Bool
bad_amount none default = false
bad_amount (some a) default = leb_ℤ a (pos 0) || not (leb_ℤ a default)

abbrev pub amount_or : Option ℤ → ℤ → ℤ
amount_or none default = default
amount_or (some a) default = a

abbrev pub approved : ℤ → String → ℕ → Refund → Refund
approved amount by now r = record r {
  status = completed;
  amount = amount;
  approved_by = some by;
  processed_at = some now;
}

unfoldable pub complete_refund : String → ℤ → String → ℕ → Tables → Tables
complete_refund id amount by now t = record t {
  refunds = update_key refund_key id (approved amount by now) t.refunds;
}

-- UPDATE payments SET status = 'REFUNDED' WHERE id = $1
unfoldable pub refund_payment : String → Tables → Tables
refund_payment payment_id t = record t {
  payments = update_key payment_key payment_id (λ p. record p { status = refunded }) t.payments;
}

abbrev pub refund_log : String → ℤ → Transaction
refund_log payment_id amount = record {
  payment_id = payment_id;
  transaction_type = "REFUND";
  amount = amount;
  status = "SUCCESS";
}

abbrev pub refunded_event : Refund → ℤ → OutboxRow
refunded_event r amount = record {
  aggregate_id = r.payment_id;
  event_type = "payment.refunded";
  order_id = r.order_id;
  refund_id = r.id;
  amount = amount;
}

unfoldable pub approve_refund : String → Option ℤ → ℕ → Principal → Handler Response
approve_refund id req_amount now principal = do
  need internal_error begin_tx
  found ← query_tx (λ t. find_key refund_key id t.refunds)
  r ← row_or (error 404 "NOT_FOUND") internal_error found
  respond_if (not (is_requested r.status)) (error 409 "INVALID_STATE")
  respond_if (bad_amount req_amount r.amount) (error 422 "VALIDATION_ERROR")
  closed ←
      exec_tx
        (λ t. applied 1 (complete_refund id (amount_or req_amount r.amount) principal.id now t))
  done_or internal_error internal_error closed
  marked ← exec_tx (λ t. applied 1 (refund_payment r.payment_id t))
  done_or internal_error internal_error marked
  logged ←
      exec_tx (λ t.
        applied 1 (log_transaction (refund_log r.payment_id (amount_or req_amount r.amount)) t))
  done_or internal_error internal_error logged
  write_outbox_event (refunded_event r (amount_or req_amount r.amount))
  need internal_error commit
  show_refund 200 id

-- UPDATE refunds SET status = 'REJECTED', reason = reason || ' | Rejected: ' || $1
-- WHERE id = $2 AND status = 'REQUESTED'
abbrev pub rejected_row : String → Refund → Refund
rejected_row reason r =
    if is_requested r.status
    then record r { status = rejected; reason = append r.reason (append " | Rejected: " reason) }
    else r

abbrev pub rows_rejected : Option Refund → ℕ
rows_rejected none = 0
rows_rejected (some r) = if is_requested r.status then 1 else 0

unfoldable pub reject_rows : String → String → Tables → Exec Tables
reject_rows id reason t =
    applied (rows_rejected (find_key refund_key id t.refunds))
      (record t { refunds = update_key refund_key id (rejected_row reason) t.refunds })

abbrev pub no_rows_affected : Done → Bool
no_rows_affected (done n) = n == 0
no_rows_affected duplicate = false
no_rows_affected Done.failed = false

unfoldable pub reject_refund : String → String → Handler Response
reject_refund id reason = do
  respond_if (str_eq (trim_space reason) "") (error 422 "VALIDATION_ERROR")
  updated ← exec_pool (reject_rows id reason)
  done_or internal_error internal_error updated
  respond_if (no_rows_affected updated) (error 409 "INVALID_STATE")
  show_refund 200 id
