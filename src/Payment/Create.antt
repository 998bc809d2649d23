-- ===== src/Payment/Create.antt =====
-- services/payment/internal/handler/payments.go, `CreatePayment`.
pub mod Effect
pub mod Calm
pub mod Twice
use laundry_platform.Base.{
  ℕ, String, List, [], ◌∷◌, ◌++◌, Option, none, some, Bool, true, false, ◌&&◌, ◌||◌, not, str_eq,
  exists, find_key, is_some, if◌then◌else◌,
}
use laundry_platform.Base.Int.{ℤ, pos, leb_ℤ, eqb_ℤ}
use laundry_platform.Db
use laundry_platform.Db.{
  M, Exec, applied, duplicate_key, refused_row, ◌>>=◌, ◌>>◌, pure, respond, respond_if, row_or,
  done_or, exec_tx, begin_tx, commit, need,
}
use laundry_platform.Payment.Tables.{
  Tables, Payment, Status, pending, paid, Transaction, OutboxRow, Response, error, json,
  internal_error, payment_body, Handler, payment_key, is_paid, is_known, log_transaction, announce,
  write_outbox_event,
}

-- The part of Core's answer that is read (core_client.go).
pub record CoreOrder : Type 0 where
  pub customer_id : String
  pub status : String
  pub payment_status : String
  pub total_amount : Option ℤ

pub record CreateRequest : Type 0 where
  pub order_id : String
  pub amount : ℤ
  pub method : String

-- `gateway.ChargeResult`.
pub record ChargeResult : Type 0 where
  pub status : Status
  pub checkout_url : String
  pub qr_string : String
  pub provider_ref : String

-- What stands outside the service for one request: Core's answer, the provider's name and its
-- answer to the charge, the generated id and code, and the clock.
pub record Outside : Type 0 where
  pub core_order : Option CoreOrder
  pub provider_name : String
  pub charge : Option ChargeResult
  pub id : String
  pub payment_code : String
  pub now : ℕ

unfoldable pub valid_method : String → Bool
valid_method m = str_eq m "CASH" || str_eq m "QRIS" || str_eq m "TRANSFER" || str_eq m "CARD"

abbrev pub differs : Option ℤ → ℤ → Bool
differs none a = true
differs (some total) a = not (eqb_ℤ total a)

-- The tests of the request against Core's order: the first that fails answers.
unfoldable pub charge_guards : CoreOrder → CreateRequest → Option Response
charge_guards order req =
    if not (str_eq order.status "WEIGHING") || not (is_some order.total_amount)
    then some (error 409 "INVALID_ORDER_STATE")
    else if str_eq order.payment_status "PAID"
    then some (error 409 "ORDER_ALREADY_PAID")
    else if differs order.total_amount req.amount
    then some (error 409 "AMOUNT_MISMATCH")
    else none

abbrev non_empty : String → Option String
non_empty s = if str_eq s "" then none else some s

-- The row for cash, which is paid at once, and for a charge through the provider.
unfoldable pub cash_payment : CreateRequest → Outside → CoreOrder → Payment
cash_payment req out order = record {
  id = out.id;
  payment_code = out.payment_code;
  order_id = req.order_id;
  customer_id = order.customer_id;
  amount = req.amount;
  method = req.method;
  status = paid;
  paid_at = some out.now;
  provider = "CASH";
  provider_ref = none;
  checkout_url = none;
  qr_string = none;
}

unfoldable pub charged_payment : CreateRequest → Outside → CoreOrder → ChargeResult → Payment
charged_payment req out order c = record {
  id = out.id;
  payment_code = out.payment_code;
  order_id = req.order_id;
  customer_id = order.customer_id;
  amount = req.amount;
  method = req.method;
  status = c.status;
  paid_at = none;
  provider = out.provider_name;
  provider_ref = non_empty c.provider_ref;
  checkout_url = non_empty c.checkout_url;
  qr_string = non_empty c.qr_string;
}

-- `none` is an error of the provider.
unfoldable pub payment_row : CreateRequest → Outside → CoreOrder → Option Payment
unfolding cash_payment charged_payment
payment_row req out order =
    if str_eq req.method "CASH"
    then some (cash_payment req out order)
    else elim out.charge [ none ↦ none | some c ↦ some (charged_payment req out order c) ]

-- INSERT INTO payments ...: unique id and code, one PAID row for an order, and the CHECKs of the
-- amount and the status.
unfoldable pub insert_payment : Payment → Tables → Exec Tables
insert_payment p t =
    if is_some (find_key payment_key p.id t.payments)
      || exists (λ (x : Payment). str_eq x.payment_code p.payment_code) t.payments
      || (is_paid p.status
          && exists (λ (x : Payment). str_eq x.order_id p.order_id && is_paid x.status) t.payments)
    then duplicate_key
    else if leb_ℤ p.amount (pos 0) || not (is_known p.status)
    then refused_row
    else applied 1 (record t { payments = t.payments ++ p ∷ [] })

abbrev pub charge_log : Payment → Transaction
charge_log p = record {
  payment_id = p.id;
  transaction_type = "CHARGE";
  amount = p.amount;
  status = if is_paid p.status then "SUCCESS" else "PENDING";
}

abbrev pub payment_event : String → Payment → OutboxRow
payment_event type p = record {
  aggregate_id = p.id;
  event_type = type;
  order_id = p.order_id;
  refund_id = "";
  amount = p.amount;
}

unfoldable pub write_if : Bool → OutboxRow → Handler (Unit {0})
write_if false e = pure tt
write_if true e = write_outbox_event e

unfoldable pub store_payment : Payment → Handler Response
store_payment p = do
  need internal_error begin_tx
  inserted ← exec_tx (insert_payment p)
  done_or (error 409 "ORDER_ALREADY_PAID") internal_error inserted
  logged ← exec_tx (λ t. applied 1 (log_transaction (charge_log p) t))
  done_or internal_error internal_error logged
  write_outbox_event (payment_event "payment.created" p)
  write_if (is_paid p.status) (payment_event "payment.paid" p)
  need internal_error commit
  respond (json 201 (payment_body p))

abbrev pub respond_none : {A : Type 0} → Response → Option A → Handler A
respond_none r none = respond r
respond_none r (some a) = pure a

unfoldable pub create_payment : CreateRequest → Outside → Handler Response
create_payment req out = do
  respond_if (str_eq req.order_id "" || leb_ℤ req.amount (pos 0) || not (valid_method req.method))
      (error 422 "VALIDATION_ERROR")
  order ← respond_none (error 503 "DEPENDENCY_UNAVAILABLE") out.core_order
  Db.respond_some (charge_guards order req)
  p ← respond_none (error 503 "GATEWAY_UNAVAILABLE") (payment_row req out order)
  store_payment p
