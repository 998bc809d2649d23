-- ===== src/Reporting/Tests.antt =====
-- Runs of Reporting's consumers.
use laundry_platform.Base.{
  ℕ, String, List, [], ◌∷◌, Option, none, some, true, ◌≡◌, ◌≢◌, refl, find_key, update_key,
}
use laundry_platform.Base.Int.{pos}
use laundry_platform.Db.{
  Reply, calm, refused, start, exit, ◌>>=◌, pure, respond, respond_if, query_pool, begin_tx,
  query_tx, exec_tx, commit, need, row_or, done_or, returned,
}
use laundry_platform.Reporting.Tables.{Tables, Summary, processed, mark}
use laundry_platform.Reporting.Sales.{add_sale, is_at}
use laundry_platform.Reporting.Sales.Lookup.{gross_of, count_of}
use laundry_platform.Reporting.Events.{
  Envelope, Payload, ack, requeue, handle_envelope, handle_core_event, dispatch_core, decoded,
  project_status_changed, count_sale, record_sale, row_or_absent, with_outlet, update_summary,
  insert_sale, mark_and_commit, is_change,
}
use laundry_platform.Reporting.Events.Effect.{core, other, kind, dispatch, Sale, sale_of}
use laundry_platform.Reporting.Events.Delivery.{projected_once}
use laundry_platform.Reporting.Events.Delivery.Books.{Added}
use laundry_platform.Reporting.Events.Delivery.Ledger.{
  Delivery, Posted, Agrees, deliver_all, in_ledger, ledger_gross, ledger_count, deliver_all-Posted,
}
use laundry_platform.Reporting.Events.Delivery.Outcome.{
  unreadable_payload_requeued, completion_counted,
}

abbrev no_tables : Tables
no_tables = record {
  order_summary = [];
  daily_outlet_sales = [];
  refund_summary = [];
  processed_events = [];
}

abbrev body : String → Payload
body to_status = record {
  order_id = "a";
  order_code = "L1";
  customer_id = "c";
  outlet_id = "o";
  status = "RECEIVED";
  to_status = to_status;
  total_amount = pos 5000;
  amount = pos 0;
}

abbrev event : String → String → Option Payload → Envelope
event id name p = record {
  event_id = id;
  event_type = name;
  occurred_at = 9;
  occurred_on = "2026-01-02";
  payload = p;
}

abbrev order : Summary
order = record {
  order_id = "a";
  order_code = "L1";
  outlet_id = "o";
  customer_id = "c";
  status = "READY";
  total_amount = some (pos 5000);
  created_at = 1;
  completed_at = none;
}

abbrev with_order : Tables
with_order = record no_tables { order_summary = order ∷ [] }

abbrev completion : Envelope
completion = event "e2" "order.completed" (some (body "COMPLETED"))

abbrev at_core : Envelope → (ℕ → Reply) → Delivery
at_core env net = record { queue = core; body = some env; net = net }

no_tables-Agrees : Agrees [] no_tables
unfolding gross_of count_of ledger_gross ledger_count in_ledger
no_tables-Agrees = record { sums = λ d o. (refl, refl); marked = λ e h. absurd (cc) }

-- An order is created, and its completion is delivered three times, once in vain.
abbrev history : List Delivery
history =
    at_core completion calm
    ∷ at_core completion calm
    ∷ at_core completion (λ n. refused)
    ∷ at_core (event "e1" "order.created" (some (body ""))) calm
    ∷ []

deliver_all-Posted_example :
    (l : List Sale) × Posted history l × Agrees l (deliver_all history no_tables)
deliver_all-Posted_example = deliver_all-Posted no_tables no_tables-Agrees history

completed_calm : (handle_core_event (some completion) (start calm with_order)).0 ≡ exit ack
unfolding handle_core_event handle_envelope dispatch_core decoded is_change project_status_changed
    count_sale record_sale row_or_absent with_outlet update_summary insert_sale mark_and_commit
    processed mark add_sale is_at ◌>>=◌ pure respond respond_if query_pool begin_tx query_tx exec_tx
    commit need row_or done_or returned start find_key update_key
completed_calm = refl

projected_once_example :
    let t' = (handle_envelope (dispatch core) completion (start calm with_order)).1.tables in
    (processed completion.event_id t' ≡ true)
    × ((handle_envelope (dispatch core) completion (start (λ n. refused) t')).1.tables ≡ t')
unfolding handle_core_event
projected_once_example =
    projected_once core completion with_order calm (λ n. refused) completed_calm

completion_counted_example :
    Added
      (sale_of completion order)
      with_order.daily_outlet_sales
      (handle_core_event (some completion) (start calm with_order)).1.tables.daily_outlet_sales
unfolding kind is_change find_key processed
completion_counted_example =
    completion_counted completion (body "COMPLETED") order with_order calm refl refl refl refl refl
      refl completed_calm

abbrev garbled : Envelope
garbled = event "e3" "order.created" none

garbled_known : kind core garbled.event_type ≢ other
unfolding kind
garbled_known e = absurd (cc)

unreadable_payload_requeued_example :
    ((handle_envelope (dispatch core) garbled (start calm with_order)).0 ≡ exit requeue)
    × ((handle_envelope (dispatch core) garbled (start calm with_order)).1.tables ≡ with_order)
unfolding processed
unreadable_payload_requeued_example =
    unreadable_payload_requeued core garbled with_order calm refl garbled_known refl
