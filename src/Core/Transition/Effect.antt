-- ===== src/Core/Transition/Effect.antt =====
-- What a transition does: all three writes, or a transaction that cannot commit.
use laundry_platform.Base.{
  String, ◌∷◌, Option, some, Bool, true, false, ◌≡◌, ◌⊎◌, arith, update_key,
}
use laundry_platform.Db.{Session, ok, ◌>>=◌, exec_tx}
use laundry_platform.Core.OrderState.{Status}
use laundry_platform.Core.Tables.{Tables, order_key, order_moved, HistoryRow, OutboxRow}
use laundry_platform.Core.Transition.{transition_status_tx, event_type_for, ptr}

abbrev pub history_row : String → Status → Status → String → Option String → Bool → HistoryRow
history_row id from to by reason override = record {
  order_id = id;
  from_status = some from;
  to_status = to;
  reason = reason;
  performed_by = ptr by;
  is_administrative_override = override;
}

abbrev pub moved_event : String → Status → Status → String → Option String → OutboxRow
moved_event id from to by reason = record {
  aggregate_id = id;
  event_type = event_type_for to;
  payload = order_moved id from to (ptr by) reason;
}

unfoldable pub moved : String → Status → Status → String → Option String → Bool → Tables → Tables
moved id from to by reason override t = record t {
  orders = update_key order_key id (λ o. record o { status = to }) t.orders;
  order_status_history = history_row id from to by reason override ∷ t.order_status_history;
  outbox_events = moved_event id from to by reason ∷ t.outbox_events;
}

pub transition_status_tx-moved :
    {R : Type 0} (id : String) (from to : Status) (by : String) (reason : Option String)
    (override : Bool) (s : Session Tables)
    → let (r, s') = transition_status_tx {R = R} id from to by reason override s in
      (s'.tables ≡ s.tables)
      × ((s'.aborted ≡ true) × (r ≡ ok false)
          ⊎ (s'.aborted ≡ false)
            × (r ≡ ok true)
            × (s'.tx ≡ moved id from to by reason override s.tx))
unfolding transition_status_tx ◌>>=◌ exec_tx moved event_type_for ptr
transition_status_tx-moved id from to by reason override s = ground arith
