-- ===== src/Core/PaymentEvents.antt =====
-- services/core/internal/handler/payment_events.go: the consumer of `payment.*` events.
pub mod Effect
pub mod Delivery
pub mod Inv
pub mod Calm
pub mod Redelivery
use laundry_platform.Base.{
  ℕ, String, List, [], ◌∷◌, Option, none, some, Bool, true, false, ◌||◌, ◌==◌, not, str_eq,
  find_key, update_key, exists, if◌then◌else◌,
}
use laundry_platform.Db.{
  M, applied, done, ◌>>=◌, ◌>>◌, pure, respond, respond_if, row_or, done_or, query_pool, query_tx,
  exec_tx, begin_tx, commit, need, returned,
}
use laundry_platform.Core.OrderState.{Status, weighing, washing, cancelled, status_eq}
use laundry_platform.Core.Tables.{
  Tables, Order, PaymentStatus, unpaid, pending, paid, failed, refunded, order_key,
}
use laundry_platform.Core.Transition.{transition_status_tx}

-- The parts of the envelope that are read; `order_id` is what the payload's `order_id` decodes
-- to, `none` where the payload is no such object.
pub record Envelope : Type 0 where
  pub event_id : String
  pub event_type : String
  pub order_id : Option String

unfoldable pub extract_order_id : Envelope → Option String
extract_order_id env = elim env.order_id [
  | none ↦ none
  | some id ↦ if str_eq id "" then none else some id
]

-- `payment_status = ANY(...)`.
abbrev pub pay_rank : PaymentStatus → ℕ
pay_rank unpaid = 0
pay_rank pending = 1
pay_rank paid = 2
pay_rank failed = 3
pay_rank refunded = 4

unfoldable pub any_of : List PaymentStatus → PaymentStatus → Bool
any_of [] p = false
any_of (q ∷ qs) p = pay_rank q == pay_rank p || any_of qs p

-- UPDATE orders SET payment_status = $1 WHERE id = $2 AND payment_status = ANY($3)
unfoldable pub project_row : PaymentStatus → List PaymentStatus → Order → Order
unfolding any_of
project_row status froms o =
    if any_of froms o.payment_status then record o { payment_status = status } else o

unfoldable pub set_payment_if : String → PaymentStatus → List PaymentStatus → Tables → Tables
set_payment_if id status froms t = record t {
  orders = update_key order_key id (project_row status froms) t.orders;
}

-- UPDATE orders SET payment_status = $1 WHERE id = $2
unfoldable pub set_payment : String → PaymentStatus → Tables → Tables
set_payment id status t = record t {
  orders = update_key order_key id (λ o. record o { payment_status = status }) t.orders;
}

unfoldable pub processed : String → Tables → Bool
processed event_id t = exists (str_eq event_id) t.processed_events

-- INSERT INTO processed_events ... ON CONFLICT DO NOTHING
unfoldable pub mark : String → Tables → Tables
unfolding processed
mark event_id t =
    if processed event_id t
    then t
    else record t { processed_events = event_id ∷ t.processed_events }

-- A method of the consumer: it returns `true` for a nil error. `done_or` returns an error.
abbrev pub Method : Type 0
Method = M Tables Bool Bool

-- `markEventProcessed` and `tx.Commit`.
unfoldable pub mark_and_commit : String → Method
mark_and_commit event_id = do
  marked ← exec_tx (λ t. applied 1 (mark event_id t))
  done_or false false marked
  need false commit
  respond true

unfoldable pub project_payment_status_if :
    Envelope → PaymentStatus → List PaymentStatus → String → Method
project_payment_status_if env status froms order_id = do
  need false begin_tx
  updated ← exec_tx (λ t. applied 1 (set_payment_if order_id status froms t))
  done_or false false updated
  mark_and_commit env.event_id

unfoldable pub handle_payment_paid : Envelope → String → Method
handle_payment_paid env order_id = do
  need false begin_tx
  updated ← exec_tx (λ t. applied 1 (set_payment order_id paid t))
  done_or false false updated
  found ← query_tx (λ t. find_key order_key order_id t.orders)
  order ← row_or false false found
  moved ←
      if status_eq order.status weighing
      then transition_status_tx order_id weighing washing "" none false
      else pure true
  respond_if (not moved) false
  mark_and_commit env.event_id

abbrev pub is_paid : PaymentStatus → Bool
is_paid paid = true
is_paid _ = false

unfoldable pub handle_payment_refunded : Envelope → String → Method
handle_payment_refunded env order_id = do
  need false begin_tx
  found ← query_tx (λ t. find_key order_key order_id t.orders)
  order ← row_or false false found
  updated ←
      if is_paid order.payment_status
      then exec_tx (λ t. applied 1 (set_payment order_id refunded t))
      else pure (done 0)
  done_or false false updated
  moved ←
      if not (status_eq order.status cancelled)
      then transition_status_tx order_id order.status cancelled "" (some "Refunded") false
      else pure true
  respond_if (not moved) false
  mark_and_commit env.event_id

-- `extractOrderID` first, in each of the three methods: without an order id there is no error.
unfoldable pub with_order_id : Envelope → (String → Method) → Method
unfolding extract_order_id
with_order_id env f = elim (extract_order_id env) [ none ↦ respond true | some id ↦ f id ]

-- The `switch` on the event's type; any other type is no error.
unfoldable pub dispatch : Envelope → Method
dispatch env =
    if str_eq env.event_type "payment.created"
    then with_order_id env (project_payment_status_if env pending (unpaid ∷ []))
    else if str_eq env.event_type "payment.paid"
    then with_order_id env (handle_payment_paid env)
    else if str_eq env.event_type "payment.failed"
    then with_order_id env (project_payment_status_if env failed (unpaid ∷ pending ∷ []))
    else if str_eq env.event_type "payment.refunded"
    then with_order_id env (handle_payment_refunded env)
    else respond true

-- What becomes of a delivery: `d.Ack(false)` or `d.Nack(false, true)`.
pub data Verdict : Type 0 where
  ack requeue : Verdict

unfoldable pub handle_envelope : Envelope → M Tables Verdict Verdict
handle_envelope env = do
  known ← query_pool (λ t. some (processed env.event_id t))
  already ← row_or requeue requeue known
  respond_if already ack
  fine ← returned (dispatch env)
  respond (if fine then ack else requeue)

-- `none` is a body that is no envelope: it is acknowledged and dropped.
unfoldable pub handle_payment_event : Option Envelope → M Tables Verdict Verdict
handle_payment_event none = respond ack
handle_payment_event (some env) = handle_envelope env
