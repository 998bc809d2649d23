-- ===== src/Core/PaymentEvents/Calm.antt =====
-- A `payment.paid` event where every call comes through.
use laundry_platform.Base.{
  String, none, some, false, ◌≡◌, refl, find_key, update_key, find_key-update_key, str_eq, eq_refl,
  arith,
}
use laundry_platform.Db.{
  start, calm, exit, ◌>>=◌, pure, respond, respond_if, row_or, done_or, query_pool, query_tx,
  exec_tx, begin_tx, need, commit, returned,
}
use laundry_platform.Core.OrderState.{weighing, washing}
use laundry_platform.Core.Tables.{Tables, Order, paid, order_key}
use laundry_platform.Core.Transition.{
  transition_status_tx, ptr, set_status, insert_history, insert_outbox, write_outbox_event,
  event_type_for,
}
use laundry_platform.Core.Transition.Effect.{moved}
use laundry_platform.Core.PaymentEvents.{
  Envelope, Method, ack, processed, mark, set_payment, handle_envelope, dispatch, with_order_id,
  extract_order_id, handle_payment_paid, mark_and_commit,
}

extract_order_id-named :
    (event_id id : String)
    → str_eq id "" ≡ false
    → extract_order_id
        (record { event_id = event_id; event_type = "payment.paid"; order_id = some id })
      ≡ some id
unfolding extract_order_id
extract_order_id-named event_id id named = ground arith

with_order_id-some :
    (env : Envelope) (id : String)
    → extract_order_id env ≡ some id
    → (f : String → Method) → with_order_id env f ≡ f id
unfolding with_order_id
with_order_id-some env id e f = rw (with_order_id, e) refl

-- Where every call comes through, a `payment.paid` event that was not seen before and names an
-- order being weighed is acknowledged, and with it are committed: the order paid and in washing,
-- its entry in the audit trail, the event of the change and the mark of the delivery.
pub payment_starts_washing :
    (event_id id : String) (t : Tables) (o : Order)
    → str_eq id "" ≡ false
    → processed event_id t ≡ false
    → find_key order_key id t.orders ≡ some o
    → o.status ≡ weighing
    → let env : Envelope = record {
      event_id = event_id;
      event_type = "payment.paid";
      order_id = some id;
    } in
      ((handle_envelope env (start calm t)).0 ≡ exit ack)
      × ((handle_envelope env (start calm t)).1.tables
          ≡ mark event_id (moved id weighing washing "" none false (set_payment id paid t)))
unfolding handle_envelope dispatch handle_payment_paid mark_and_commit set_payment
    transition_status_tx set_status insert_history write_outbox_event insert_outbox event_type_for
    ptr moved ◌>>=◌ pure respond respond_if row_or done_or query_pool query_tx exec_tx begin_tx need
    commit returned start
payment_starts_washing event_id id t o named fresh found state =
    rw
      (
        fresh,
        with_order_id-some _ id (extract_order_id-named event_id id named) _,
        find_key-update_key order_key id id (λ x. record x { payment_status = paid }) t.orders
            (λ x. refl),
        eq_refl id,
        found,
        state,
      )
      (rw
        (
          find_key-update_key order_key id id (λ x. record x { status = washing })
              (update_key order_key id (λ x. record x { payment_status = paid }) t.orders)
              (λ x. refl),
          find_key-update_key order_key id id (λ x. record x { payment_status = paid }) t.orders
              (λ x. refl),
          eq_refl id,
          found,
        )
        (refl, refl))
