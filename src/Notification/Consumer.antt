-- ===== src/Notification/Consumer.antt =====
-- services/notification/internal/handler/events.go: which events lead to a message, and the one
-- message of an event. The provider of WhatsApp messages is called over the network as the database
-- is: `sent` is what reached it. The texts (templates.go) are left out; a message is its template.
pub mod Effect
pub mod Once
use laundry_platform.Base.{
  String, List, ◌∷◌, Option, none, some, Bool, true, false, ◌||◌, ◌==◌, exists, str_eq,
  if◌then◌else◌,
}
use laundry_platform.Base.Int.{ℤ}
use laundry_platform.Db.{
  M, Exec, applied, Done, done, duplicate, failed, ◌>>=◌, ◌>>◌, pure, respond, respond_if, row_or,
  done_or, query_pool, exec_pool,
}

pub data Message : Type 0 where
  order_created : String → String → Message
  order_weighed : String → String → ℤ → Message
  order_ready : String → String → String → Message
  order_status_changed : String → String → String → Message
  payment_paid : String → String → ℤ → Message
  payment_failed : String → String → Message
  payment_refunded : String → String → ℤ → Message

pub record Notification : Type 0 where
  pub type : String
  pub recipient_customer_id : String
  pub source_event_id : String
  pub message : Message

-- `status` is SENT for `true`, and FAILED otherwise.
pub record Delivery : Type 0 where
  pub source_event_id : String
  pub status : Bool

-- What went to a phone, with the event that it is about.
pub record Sent : Type 0 where
  pub source_event_id : String
  pub phone : String
  pub message : Message

pub record Tables : Type 0 where
  pub notifications : List Notification
  pub notification_deliveries : List Delivery
  pub sent : List Sent

pub record Payload : Type 0 where
  pub order_id : String
  pub order_code : String
  pub customer_id : String
  pub to_status : String
  pub total_amount : ℤ
  pub amount : ℤ

-- `none` is a payload that does not decode.
pub record Envelope : Type 0 where
  pub event_id : String
  pub event_type : String
  pub payload : Option Payload

pub record CoreOrder : Type 0 where
  pub order_code : String
  pub customer_id : String
  pub fulfillment_type : String

pub record CoreCustomer : Type 0 where
  pub name : String
  pub phone : String

-- Core's answers to `fetchCoreOrder` and `fetchCoreCustomer`, `none` for an error.
pub record Core : Type 0 where
  pub order : String → Option CoreOrder
  pub customer : String → Option CoreCustomer

-- `true` is a nil error.
abbrev pub Method : Type 0
Method = M Tables Bool Bool

unfoldable pub already_processed : String → Tables → Bool
already_processed event_id t =
    exists (λ (n : Notification). str_eq event_id n.source_event_id) t.notifications

-- INSERT INTO notifications ... ON CONFLICT (source_event_id) DO NOTHING RETURNING id
unfoldable pub insert_notification : Notification → Tables → Exec Tables
unfolding already_processed
insert_notification n t =
    if already_processed n.source_event_id t
    then applied 0 t
    else applied 1 (record t { notifications = n ∷ t.notifications })

-- `Scan` of the id that is returned: after a conflict there is no row, which is an error too.
unfoldable pub returned_id : Done → Bool
returned_id (done n) = n == 1
returned_id duplicate = false
returned_id failed = false

abbrev pub is_sent : Done → Bool
is_sent (done n) = true
is_sent duplicate = false
is_sent failed = false

unfoldable pub send : Sent → Tables → Exec Tables
send m t = applied 1 (record t { sent = m ∷ t.sent })

unfoldable pub record_delivery : Delivery → Tables → Exec Tables
record_delivery d t =
    applied 1 (record t { notification_deliveries = d ∷ t.notification_deliveries })

unfoldable pub store_and_send : Envelope → String → CoreCustomer → Message → Method
store_and_send env customer_id customer message = do
  inserted ← exec_pool (
      insert_notification (record {
        type = env.event_type;
        recipient_customer_id = customer_id;
        source_event_id = env.event_id;
        message = message;
      }))
  respond_if (if returned_id inserted then false else true) false
  answered ←
      exec_pool (
        send (record { source_event_id = env.event_id; phone = customer.phone; message = message }))
  logged ←
      exec_pool
        (record_delivery (record { source_event_id = env.event_id; status = is_sent answered }))
  done_or false false logged
  respond true

unfoldable pub with_customer : Envelope → String → (String → Message) → Option CoreCustomer → Method
with_customer env customer_id render none = respond false
with_customer env customer_id render (some c) =
    if str_eq c.phone "" then respond true else store_and_send env customer_id c (render c.name)

unfoldable pub notify_customer : Core → Envelope → String → (String → Message) → Method
notify_customer core env customer_id render = do
  known ← query_pool (λ t. some (already_processed env.event_id t))
  already ← row_or false false known
  respond_if already true
  with_customer env customer_id render (core.customer customer_id)

-- A message about an order that Core is asked for.
unfoldable pub about_order :
    Core → Envelope → (CoreOrder → String → Message) → Option CoreOrder → Method
about_order core env render none = respond false
about_order core env render (some o) = notify_customer core env o.customer_id (render o)

unfoldable pub core_message : Core → Envelope → Payload → Method
core_message core env p =
    if str_eq env.event_type "order.created"
    then notify_customer core env p.customer_id (λ name. order_created name p.order_code)
    else if str_eq env.event_type "order.weighed"
    then about_order core env (λ o name. order_weighed name o.order_code p.total_amount)
        (core.order p.order_id)
    else if str_eq env.event_type "order.status_changed"
    then (if str_eq p.to_status "READY"
        then about_order core env (λ o name. order_ready name o.order_code o.fulfillment_type)
            (core.order p.order_id)
        else respond true)
    else if str_eq env.event_type "order.completed"
    then about_order core env (λ o name. order_status_changed name o.order_code "COMPLETED")
        (core.order p.order_id)
    else respond true

unfoldable pub payment_text : String → Payload → CoreOrder → String → Message
payment_text type p o name =
    if str_eq type "payment.paid"
    then payment_paid name o.order_code p.amount
    else if str_eq type "payment.failed"
    then payment_failed name o.order_code
    else payment_refunded name o.order_code p.amount

unfoldable pub payment_message : Core → Envelope → Payload → Method
payment_message core env p =
    if str_eq env.event_type "payment.paid"
      || str_eq env.event_type "payment.failed"
      || str_eq env.event_type "payment.refunded"
    then about_order core env (payment_text env.event_type p) (core.order p.order_id)
    else respond true

-- A payload that does not decode is no error.
unfoldable pub handle_core_event : Core → Envelope → Method
handle_core_event core env = elim env.payload [
  | none ↦ respond true
  | some p ↦ core_message core env p
]

unfoldable pub handle_payment_event : Core → Envelope → Method
handle_payment_event core env = elim env.payload [
  | none ↦ respond true
  | some p ↦ payment_message core env p
]
