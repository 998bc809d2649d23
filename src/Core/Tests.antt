-- ===== src/Core/Tests.antt =====
-- Runs of Core's handlers on the sample tables.
use laundry_platform.Base.{
  String, List, [], ◌∷◌, none, some, false, ◌≡◌, ◌≢◌, refl, ap, arith, find_key, update_key,
}
use laundry_platform.Base.Int.{pos, ◌+ℤ◌, ◌-ℤ◌, ◌-₆₄◌, ◌+₆₄◌, wrap64, fits64}
use laundry_platform.Db.{
  calm, start, exit, ◌>>=◌, pure, respond, respond_if, query_pool, begin_tx, query_tx, exec_tx,
  commit, need, row_or, done_or, returned,
}
use laundry_platform.Db.Runs.{Runs, idle}
use laundry_platform.Shared.HttpAuth.{Principal}
use laundry_platform.Core.OrderState.{
  Status, received, weighing, washing, drying, ready, cancelled, is_valid_transition, allows,
  transitions, staff_roles_for, requires_reason, requires_paid_before_completing,
}
use laundry_platform.Core.Tables.{Tables, OrderItem, unpaid, paid, item_key}
use laundry_platform.Core.Response.{order_body}
use laundry_platform.Core.Samples.{
  thousandths, staff, shop, wash, order_in, weighing-Inv, washing-Inv, ready-Inv,
}
use laundry_platform.Core.Invariant.{Inv}
use laundry_platform.Core.Transition.{
  transition_status_tx, set_status, insert_history, insert_outbox, write_outbox_event,
}
use laundry_platform.Core.Transition.Effect.{moved}
use laundry_platform.Core.ChangeStatus.{ChangeStatusRequest, change_order_status}
use laundry_platform.Core.ChangeStatus.Effect as ChangeStatusEffect
use laundry_platform.Core.ChangeStatus.Effect.{change_order_status-Runs}
use laundry_platform.Core.ChangeStatus.Inv.{change_order_status-Inv}
use laundry_platform.Core.Weigh.{weigh_item, weigh_row, set_weight, item_subtotal}
use laundry_platform.Core.Weigh.Effect as WeighEffect
use laundry_platform.Core.Weigh.Effect.{weigh_item-Runs}
use laundry_platform.Core.Weigh.Inv.{weigh_item-Inv, weigh_item_prices}
use laundry_platform.Core.Finalize.{
  FinalizeRequest, finalize_weighing, bill_of, tax_of, incomplete, unweighed, summed, sum_subtotals,
  active_tax_rate_value, set_bill, bill_checks, bill_rows, billed_row,
}
use laundry_platform.Core.Finalize.Effect as FinalizeEffect
use laundry_platform.Core.Finalize.Effect.{finalize_weighing-Runs}
use laundry_platform.Core.Finalize.Total.{
  Billed, finalize_weighing-Inv, finalize_weighing_bills, bill_total_exact,
}
use laundry_platform.Core.Fetch.{commit_and_show, fetch_order, items_of}
use laundry_platform.Core.PaymentEvents.Calm.{payment_starts_washing}
use laundry_platform.Core.Fulfillment.{
  UpdateRequest, deliveries, update_fulfillment, update_pickup, update_delivery,
}
use laundry_platform.Core.Fulfillment.Effect as FulfillmentEffect
use laundry_platform.Core.Fulfillment.Effect.{update_fulfillment-Runs}
use laundry_platform.Core.Fulfillment.Inv.{update_pickup_or_delivery-Inv}
use laundry_platform.Core.Access.{get_order}
use laundry_platform.Core.Access.Effect as AccessEffect
use laundry_platform.Core.Access.Effect.{get_order-Runs}
use laundry_platform.Core.Tax.{set_tax_rate}
use laundry_platform.Core.Tax.Effect as TaxEffect
use laundry_platform.Core.Tax.Effect.{set_tax_rate-Runs}
use laundry_platform.Core.PaymentEvents.{
  Envelope, ack, handle_envelope, dispatch, with_order_id, extract_order_id, handle_payment_paid,
  mark_and_commit, mark, processed, set_payment,
}
use laundry_platform.Core.PaymentEvents.Delivery.{Handled, handle_envelope-Runs}
use laundry_platform.Core.PaymentEvents.Inv.{handle_envelope-Inv}
use laundry_platform.Core.PaymentEvents.Redelivery.{redelivery_changes_nothing}

abbrev dry : ChangeStatusRequest
dry = record { to_status = drying; reason = "" }

abbrev paid_event : Envelope
paid_event = record { event_id = "e1"; event_type = "payment.paid"; order_id = some "o1" }

abbrev taken_home : Status
taken_home = laundry_platform.Core.OrderState.delivered

abbrev arrived : UpdateRequest
arrived = record { status = "COMPLETED"; scheduled_at = none }

abbrev no_fees : FinalizeRequest
no_fees = record { pickup_fee = none; delivery_fee = none }

change_order_status-Inv_example :
    Inv (change_order_status "o1" dry staff (start calm (shop washing paid))).1.tables
change_order_status-Inv_example =
    change_order_status-Inv "o1" dry staff (shop washing paid) calm washing-Inv

change_order_status-Runs_example :
    Runs
      (shop washing paid)
      idle
      (change_order_status "o1" dry staff)
      (ChangeStatusEffect.Answered "o1" dry staff (shop washing paid))
change_order_status-Runs_example = change_order_status-Runs "o1" dry staff (shop washing paid)

weigh_item-Inv_example :
    Inv (weigh_item thousandths "o1" "i1" 3000 staff (start calm (shop weighing unpaid))).1.tables
weigh_item-Inv_example =
    weigh_item-Inv thousandths "o1" "i1" 3000 staff (shop weighing unpaid) calm weighing-Inv

weigh_item-Runs_example :
    Runs
      (shop weighing unpaid)
      idle
      (weigh_item thousandths "o1" "i1" 3000 staff)
      (WeighEffect.Answered thousandths "o1" "i1" 3000 staff (shop weighing unpaid))
weigh_item-Runs_example = weigh_item-Runs thousandths "o1" "i1" 3000 staff (shop weighing unpaid)

finalize_weighing-Inv_example :
    Inv (finalize_weighing thousandths "o1" no_fees (start calm (shop weighing unpaid))).1.tables
finalize_weighing-Inv_example =
    finalize_weighing-Inv thousandths "o1" no_fees (shop weighing unpaid) calm weighing-Inv

finalize_weighing-Runs_example :
    Runs
      (shop weighing unpaid)
      idle
      (finalize_weighing thousandths "o1" no_fees)
      (FinalizeEffect.Answered thousandths "o1" no_fees (shop weighing unpaid))
finalize_weighing-Runs_example =
    finalize_weighing-Runs thousandths "o1" no_fees (shop weighing unpaid)

update_pickup_or_delivery-Inv_example :
    Inv (update_pickup "d1" arrived 9 staff (start calm (shop ready paid))).1.tables
    × Inv (update_delivery "d1" arrived 9 staff (start calm (shop ready paid))).1.tables
update_pickup_or_delivery-Inv_example =
    update_pickup_or_delivery-Inv "d1" arrived 9 staff (shop ready paid) calm ready-Inv

update_fulfillment-Runs_example :
    Runs
      (shop ready paid)
      idle
      (update_fulfillment deliveries ready taken_home "d1" arrived 9 staff)
      (FulfillmentEffect.Answered deliveries ready taken_home "d1" arrived 9 staff
        (shop ready paid))
update_fulfillment-Runs_example =
    update_fulfillment-Runs deliveries ready taken_home "d1" arrived 9 staff (shop ready paid)

handle_envelope-Inv_example :
    Inv (handle_envelope paid_event (start calm (shop weighing unpaid))).1.tables
handle_envelope-Inv_example =
    handle_envelope-Inv paid_event (shop weighing unpaid) calm weighing-Inv

handle_envelope-Runs_example :
    Runs
      (shop weighing unpaid)
      idle
      (handle_envelope paid_event)
      (Handled paid_event (shop weighing unpaid))
handle_envelope-Runs_example = handle_envelope-Runs paid_event (shop weighing unpaid)

not_empty : {x : String} {xs : List String} → x ∷ xs ≢ []
not_empty e = cc

-- The first delivery changes the order, and the second one nothing.
paid_event_moves :
    (handle_envelope paid_event (start calm (shop weighing unpaid))).1.tables ≢ shop weighing unpaid
unfolding handle_envelope dispatch with_order_id extract_order_id handle_payment_paid
    mark_and_commit transition_status_tx ◌>>=◌ pure respond respond_if returned query_pool begin_tx
    query_tx exec_tx commit need row_or done_or start mark processed set_payment find_key update_key
    set_status insert_history insert_outbox
paid_event_moves e = absurd (not_empty (ap (λ (t : Tables). t.processed_events) e))

redelivery_changes_nothing_example :
    (handle_envelope paid_event (
      start calm
        (handle_envelope paid_event (start calm (shop weighing unpaid))).1.tables)).1.tables
    ≡ (handle_envelope paid_event (start calm (shop weighing unpaid))).1.tables
redelivery_changes_nothing_example =
    redelivery_changes_nothing paid_event (shop weighing unpaid) calm calm paid_event_moves

bill_total_exact_example :
    (bill_of thousandths no_fees (order_in weighing unpaid) (pos 14000) 11000).total
    ≡ pos 14000
      -ℤ pos 1000
      +ℤ (bill_of thousandths no_fees (order_in weighing unpaid) (pos 14000) 11000).tax
      +ℤ (bill_of thousandths no_fees (order_in weighing unpaid) (pos 14000) 11000).pickup_fee
      +ℤ (bill_of thousandths no_fees (order_in weighing unpaid) (pos 14000) 11000).delivery_fee
unfolding bill_of tax_of ◌+ℤ◌ ◌-ℤ◌
bill_total_exact_example =
    bill_total_exact thousandths no_fees (order_in weighing unpaid) (pos 14000) 11000
      (omega arith, omega arith) (omega arith, omega arith) (omega arith, omega arith)
      (omega arith, omega arith)

abbrev outlet_admin : Principal
outlet_admin = record { type = "STAFF"; id = "u7"; roles = "OUTLET_ADMIN" ∷ []; outlet_ids = [] }

payment_starts_washing_example :
    ((handle_envelope paid_event (start calm (shop weighing unpaid))).0 ≡ exit ack)
    × ((handle_envelope paid_event (start calm (shop weighing unpaid))).1.tables
        ≡ mark "e1" (
            moved "o1" weighing washing "" none false
              (set_payment "o1" paid (shop weighing unpaid))))
unfolding find_key processed
payment_starts_washing_example =
    payment_starts_washing "e1" "o1" (shop weighing unpaid) (order_in weighing unpaid) refl refl
      refl refl

-- The item's subtotal for three kilograms, after every call came through.
weigh_item_prices_example :
    (j : OrderItem) × (find_key item_key "i1"
        (weigh_item thousandths "o1" "i1" 3000 staff
          (start calm (shop weighing unpaid))).1.tables.order_items
      ≡ some j)
    × (j.subtotal ≡ some (item_subtotal thousandths 3000 (pos 7000)))
    × (j.unit_price_snapshot ≡ pos 7000)
unfolding find_key update_key weigh_item weigh_row set_weight item_subtotal transition_status_tx
    commit_and_show fetch_order items_of ◌>>=◌ pure respond respond_if query_pool query_tx exec_tx
    begin_tx commit need row_or done_or start
weigh_item_prices_example =
    weigh_item_prices thousandths "o1" "i1" 3000 staff (shop weighing unpaid) calm 200
      (order_body (record {
        order = order_in weighing unpaid;
        items = record wash { actual_weight_kg = some 3000; subtotal = some (pos 21000) } ∷ [];
      }))
      wash refl refl

finalize_weighing_bills_example :
    Billed thousandths "o1" no_fees
      (shop weighing unpaid)
      (finalize_weighing thousandths "o1" no_fees (start calm (shop weighing unpaid))).1.tables
unfolding find_key update_key finalize_weighing incomplete unweighed summed sum_subtotals
    active_tax_rate_value bill_of tax_of set_bill bill_checks bill_rows billed_row fits64 ◌+ℤ◌ ◌-₆₄◌
    ◌+₆₄◌ wrap64 write_outbox_event insert_outbox commit_and_show fetch_order items_of ◌>>=◌ pure
    respond respond_if query_pool query_tx exec_tx begin_tx commit need row_or done_or start
finalize_weighing_bills_example =
    finalize_weighing_bills thousandths "o1" no_fees (shop weighing unpaid) calm 200
      (order_body (record {
        order = record (order_in weighing unpaid) {
          subtotal_amount = some (pos 14000);
          tax_rate_snapshot = 11000;
          tax_amount = pos 1540;
          total_amount = some (pos 19540);
        };
        items = wash ∷ [];
      }))
      refl

get_order-Runs_example :
    Runs
      (shop washing paid)
      idle
      (get_order "o1" staff)
      (AccessEffect.Answered "o1" staff (shop washing paid))
get_order-Runs_example = get_order-Runs "o1" staff (shop washing paid)

set_tax_rate-Runs_example :
    Runs
      (shop washing paid)
      idle
      (set_tax_rate thousandths 12000 "PPN" "t2" 9 staff)
      (TaxEffect.Answered thousandths 12000 "PPN" "t2" 9 staff (shop washing paid))
set_tax_rate-Runs_example =
    set_tax_rate-Runs thousandths 12000 "PPN" "t2" 9 staff (shop washing paid)
