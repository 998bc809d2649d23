-- ===== src/Core/Transition.antt =====
-- services/core/internal/handler/orders.go, `transitionStatusTx`, with the outbox writer of
-- outbox_writer.go: the status, the audit trail and the event, in the caller's transaction.
pub mod Effect
pub mod Rule
use laundry_platform.Base.{
  ℕ, String, List, [], ◌∷◌, Option, none, some, Bool, true, false, str_eq, if◌then◌else◌, find_key,
  update_key, is_some,
}
use laundry_platform.Db.{
  M, Exec, applied, refused_row, Done, done, duplicate, failed, ◌>>=◌, exec_tx, pure,
}
use laundry_platform.Core.OrderState.{Status, completed, cancelled, status_eq}
use laundry_platform.Core.Tables.{
  Order, HistoryRow, OutboxRow, Payload, order_moved, Tables, order_key,
}

-- UPDATE orders SET status = $1 WHERE id = $2
unfoldable pub set_status : String → Status → Tables → Exec Tables
set_status id to t =
    applied 1
      (record t { orders = update_key order_key id (λ o. record o { status = to }) t.orders })

-- The reference of `order_status_history.order_id` to `orders`.
unfoldable pub insert_history : HistoryRow → Tables → Exec Tables
insert_history h t =
    if is_some (find_key order_key h.order_id t.orders)
    then applied 1 (record t { order_status_history = h ∷ t.order_status_history })
    else refused_row

unfoldable pub insert_outbox : OutboxRow → Tables → Exec Tables
insert_outbox e t = applied 1 (record t { outbox_events = e ∷ t.outbox_events })

-- `err == nil` of an `Exec`.
abbrev pub is_done : Done → Bool
is_done (done n) = true
is_done duplicate = false
is_done failed = false

-- The payload is a map of texts and numbers, for which `json.Marshal` reports no error.
unfoldable pub write_outbox_event : {R : Type 0} → String → String → Payload → M Tables R Bool
unfolding insert_outbox
write_outbox_event aggregate_id event_type payload = do
  sent ← exec_tx (
      insert_outbox
        (record { aggregate_id = aggregate_id; event_type = event_type; payload = payload }))
  pure (is_done sent)

unfoldable pub event_type_for : Status → String
event_type_for to =
    if status_eq to completed
    then "order.completed"
    else if status_eq to cancelled
    then "order.cancelled"
    else "order.status_changed"

unfoldable pub ptr : String → Option String
ptr s = if str_eq s "" then none else some s

-- `false` stands for an error.
unfoldable pub transition_status_tx :
    {R : Type 0} → String → Status → Status → String → Option String → Bool → M Tables R Bool
unfolding set_status insert_history write_outbox_event event_type_for ptr
transition_status_tx order_id from to performed_by reason is_override = do
  moved ← exec_tx (set_status order_id to)
  logged ←
      if is_done moved
      then exec_tx (
          insert_history (record {
            order_id = order_id;
            from_status = some from;
            to_status = to;
            reason = reason;
            performed_by = ptr performed_by;
            is_administrative_override = is_override;
          }))
      else pure failed
  if is_done logged
      then write_outbox_event order_id (event_type_for to)
          (order_moved order_id from to (ptr performed_by) reason)
      else pure false
