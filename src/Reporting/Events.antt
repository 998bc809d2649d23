-- ===== src/Reporting/Events.antt =====
-- services/reporting/internal/handler/events.go: the consumers of `order.*` and of `payment.*`
-- events, which keep the projections. A delivery is put back in the queue after any error.
pub mod Effect
pub mod Delivery
use laundry_platform.Base.{
  ℕ, String, List, [], ◌∷◌, ◌++◌, Option, none, some, Bool, true, false, not, str_eq, find_key,
  update_key, is_some, if◌then◌else◌,
}
use laundry_platform.Base.Int.{ℤ, pos}
use laundry_platform.Db.{
  M, Exec, applied, refused_row, Done, done, ◌>>=◌, ◌>>◌, pure, respond, respond_if, row_or,
  done_or, Fetch, row, no_rows, unreadable, query_pool, query_tx, exec_tx, begin_tx, commit, need,
  returned,
}
use laundry_platform.Reporting.Tables.{
  Tables, Summary, DailySales, RefundSummary, summary_key, processed, mark,
}
use laundry_platform.Reporting.Sales.{add_sale, add_refunded, add_refund}

-- The fields that the consumers decode; a field that the payload lacks is empty or 0.
pub record Payload : Type 0 where
  pub order_id : String
  pub order_code : String
  pub customer_id : String
  pub outlet_id : String
  pub status : String
  pub to_status : String
  pub total_amount : ℤ
  pub amount : ℤ

-- `occurred_on` is `OccurredAt.Format("2006-01-02")`; `none` is a payload that does not decode.
pub record Envelope : Type 0 where
  pub event_id : String
  pub event_type : String
  pub occurred_at : ℕ
  pub occurred_on : String
  pub payload : Option Payload

-- A method returns `true` for a nil error.
abbrev pub Method : Type 0
Method = M Tables Bool Bool

-- `markProcessed` and `tx.Commit`, the end of each method.
unfoldable pub mark_and_commit : String → Method
mark_and_commit event_id = do
  marked ← exec_tx (λ t. applied 1 (mark event_id t))
  done_or false false marked
  need false commit
  respond true

unfoldable pub mark_only : Envelope → Method
mark_only env = do need false begin_tx; mark_and_commit env.event_id

-- INSERT INTO rpt_order_summary ... ON CONFLICT (order_id) DO NOTHING
unfoldable pub insert_summary : Envelope → Payload → Tables → Tables
insert_summary env p t =
    if is_some (find_key summary_key p.order_id t.order_summary) then t else record t {
      order_summary =
          t.order_summary
          ++ record {
            order_id = p.order_id;
            order_code = p.order_code;
            outlet_id = p.outlet_id;
            customer_id = p.customer_id;
            status = p.status;
            total_amount = none;
            created_at = env.occurred_at;
            completed_at = none;
          }
            ∷ [];
    }

unfoldable pub update_summary : String → (Summary → Summary) → Tables → Tables
update_summary id f t = record t { order_summary = update_key summary_key id f t.order_summary }

unfoldable pub project_created : Envelope → Payload → Method
project_created env p = do
  need false begin_tx
  inserted ← exec_tx (λ t. applied 1 (insert_summary env p t))
  done_or false false inserted
  mark_and_commit env.event_id

unfoldable pub project_weighed : Envelope → Payload → Method
project_weighed env p = do
  need false begin_tx
  updated ← exec_tx (λ t.
      applied 1
        (update_summary p.order_id (λ s. record s { total_amount = some p.total_amount }) t))
  done_or false false updated
  mark_and_commit env.event_id

-- A statement that an amount out of range refuses.
abbrev pub checked : {A : Type 0} → (A → Tables) → Option A → Exec Tables
checked f none = refused_row
checked f (some a) = applied 1 (f a)

unfoldable pub insert_sale : String → String → ℤ → Tables → Exec Tables
insert_sale date outlet amount t =
    checked (λ rows. record t { daily_outlet_sales = rows })
      (add_sale date outlet amount t.daily_outlet_sales)

unfoldable pub insert_refund : String → String → ℤ → Tables → Exec Tables
insert_refund date outlet amount t =
    checked (λ rows. record t { refund_summary = rows })
      (add_refund date outlet amount t.refund_summary)

unfoldable pub update_refunded : String → String → ℤ → Tables → Exec Tables
update_refunded date outlet amount t =
    checked (λ rows. record t { daily_outlet_sales = rows })
      (add_refunded date outlet amount t.daily_outlet_sales)

abbrev pub amount_or_zero : Option ℤ → ℤ
amount_or_zero none = pos 0
amount_or_zero (some a) = a

-- `Scan(...)` where `pgx.ErrNoRows` is no error.
unfoldable pub row_or_absent : {A : Type 0} → Fetch A → M Tables Bool (Option A)
row_or_absent (row a) = pure (some a)
row_or_absent no_rows = pure none
row_or_absent unreadable = respond false

-- `outletID != ""` after the scan.
unfoldable pub with_outlet : Option Summary → Option Summary
with_outlet none = none
with_outlet (some s) = if str_eq s.outlet_id "" then none else some s

unfoldable pub record_sale : Envelope → Payload → Option Summary → Method
record_sale env p none = mark_and_commit env.event_id
record_sale env p (some s) = do
  completed ← exec_tx (λ t.
      applied 1
        (update_summary p.order_id (λ x. record x { completed_at = some env.occurred_at }) t))
  done_or false false completed
  sold ← exec_tx (insert_sale env.occurred_on s.outlet_id (amount_or_zero s.total_amount))
  done_or false false sold
  mark_and_commit env.event_id

unfoldable pub count_sale : Envelope → Payload → Method
count_sale env p = do
  found ← query_tx (λ t. find_key summary_key p.order_id t.order_summary)
  order ← row_or_absent found
  record_sale env p (with_outlet order)

unfoldable pub project_status_changed : Envelope → Payload → Method
project_status_changed env p = do
  need false begin_tx
  updated ←
      exec_tx
        (λ t. applied 1 (update_summary p.order_id (λ s. record s { status = p.to_status }) t))
  done_or false false updated
  if str_eq p.to_status "COMPLETED" then count_sale env p else mark_and_commit env.event_id

unfoldable pub record_refund : Envelope → Payload → Option Summary → Method
record_refund env p none = mark_and_commit env.event_id
record_refund env p (some s) = do
  summed ← exec_tx (insert_refund env.occurred_on s.outlet_id p.amount)
  done_or false false summed
  refunded ← exec_tx (update_refunded env.occurred_on s.outlet_id p.amount)
  done_or false false refunded
  mark_and_commit env.event_id

unfoldable pub project_refund : Envelope → Payload → Method
project_refund env p = do
  need false begin_tx
  found ← query_tx (λ t. find_key summary_key p.order_id t.order_summary)
  order ← row_or_absent found
  record_refund env p (with_outlet order)

-- `json.Unmarshal(env.Payload, &payload)` first.
unfoldable pub decoded : Envelope → (Payload → Method) → Method
decoded env f = elim env.payload [ none ↦ respond false | some p ↦ f p ]

unfoldable pub is_change : String → Bool
is_change kind =
    if str_eq kind "order.status_changed"
    then true
    else if str_eq kind "order.completed"
    then true
    else str_eq kind "order.cancelled"

unfoldable pub dispatch_core : Envelope → Method
dispatch_core env =
    if str_eq env.event_type "order.created"
    then decoded env (project_created env)
    else if str_eq env.event_type "order.weighed"
    then decoded env (project_weighed env)
    else if is_change env.event_type
    then decoded env (project_status_changed env)
    else mark_only env

unfoldable pub dispatch_payment : Envelope → Method
dispatch_payment env =
    if str_eq env.event_type "payment.refunded"
    then decoded env (project_refund env)
    else mark_only env

-- `d.Ack(false)` or `d.Nack(false, true)`.
pub data Verdict : Type 0 where
  ack requeue : Verdict

abbrev pub verdict_of : Bool → Verdict
verdict_of fine = if fine then ack else requeue

unfoldable pub handle_envelope : (Envelope → Method) → Envelope → M Tables Verdict Verdict
handle_envelope dispatch env = do
  known ← query_pool (λ t. some (processed env.event_id t))
  already ← row_or requeue requeue known
  respond_if already ack
  fine ← returned (dispatch env)
  respond (verdict_of fine)

-- `none` is a body that is no envelope.
unfoldable pub handle_core_event : Option Envelope → M Tables Verdict Verdict
handle_core_event none = respond ack
handle_core_event (some env) = handle_envelope dispatch_core env

unfoldable pub handle_payment_event : Option Envelope → M Tables Verdict Verdict
handle_payment_event none = respond ack
handle_payment_event (some env) = handle_envelope dispatch_payment env
