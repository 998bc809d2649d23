-- ===== src/Payment/Tests.antt =====
-- Runs of Payment's handlers on sample tables.
use laundry_platform.Base.{[], ◌∷◌, none, some, ◌≡◌, refl, find_key}
use laundry_platform.Base.Int.{pos}
use laundry_platform.Db.{calm, start, exit}
use laundry_platform.Db.Runs.{Runs, idle}
use laundry_platform.Shared.HttpAuth.{Principal}
use laundry_platform.Payment.Tables.{
  Tables, Payment, Refund, Status, pending, paid, refunded, requested, payment_key, refund_key,
  json, payment_body, refund_body,
}
use laundry_platform.Payment.Create.{
  CoreOrder, CreateRequest, Outside, create_payment, payment_event,
}
use laundry_platform.Payment.Create.Effect as CreateEffect
use laundry_platform.Payment.Create.Effect.{create_payment-Runs}
use laundry_platform.Payment.Create.Twice.{cash_paid_once}
use laundry_platform.Payment.Simulate.{became_paid, simulate_gateway_callback}
use laundry_platform.Payment.Simulate.Effect as SimulateEffect
use laundry_platform.Payment.Simulate.Effect.{simulate_gateway_callback-Runs}
use laundry_platform.Payment.Refunds.{approve_refund, create_refund, approved, refunded_event}
use laundry_platform.Payment.Refunds.Effect as RefundsEffect
use laundry_platform.Payment.Refunds.Effect.{approve_refund-Runs}
use laundry_platform.Payment.Refunds.Request as RequestEffect
use laundry_platform.Payment.Refunds.Request.{create_refund-Runs}
use laundry_platform.Payment.Refunds.Twice.{approve_refund_once}

abbrev manager : Principal
manager = record { type = "STAFF"; id = "u9"; roles = "OWNER" ∷ []; outlet_ids = [] }

abbrev core_order : CoreOrder
core_order = record {
  customer_id = "c1";
  status = "WEIGHING";
  payment_status = "UNPAID";
  total_amount = some (pos 19540);
}

abbrev cash : CreateRequest
cash = record { order_id = "o1"; amount = pos 19540; method = "CASH" }

abbrev outside : Outside
outside = record {
  core_order = some core_order;
  provider_name = "DUMMY";
  charge = none;
  id = "p1";
  payment_code = "PAY-1";
  now = 5;
}

abbrev payment_in : Status → Payment
payment_in s = record {
  id = "p1";
  payment_code = "PAY-1";
  order_id = "o1";
  customer_id = "c1";
  amount = pos 19540;
  method = "QRIS";
  status = s;
  paid_at = none;
  provider = "DUMMY";
  provider_ref = none;
  checkout_url = none;
  qr_string = none;
}

abbrev refund : Refund
refund = record {
  id = "r1";
  refund_code = "RFD-1";
  payment_id = "p1";
  order_id = "o1";
  amount = pos 19540;
  status = requested;
  reason = "Damaged";
  requested_by = "u1";
  approved_by = none;
  processed_at = none;
}

abbrev empty : Tables
empty = record { payments = []; payment_transactions = []; refunds = []; outbox_events = [] }

abbrev charged : Tables
charged = record empty { payments = payment_in pending ∷ [] }

abbrev contested : Tables
contested = record empty { payments = payment_in paid ∷ []; refunds = refund ∷ [] }

create_payment-Runs_example :
    Runs empty idle (create_payment cash outside) (CreateEffect.Answered cash outside empty)
create_payment-Runs_example = create_payment-Runs cash outside empty

simulate_gateway_callback-Runs_example :
    Runs charged idle
      (simulate_gateway_callback "DUMMY" "p1" became_paid 7)
      (SimulateEffect.Answered "DUMMY" "p1" became_paid 7 charged)
simulate_gateway_callback-Runs_example =
    simulate_gateway_callback-Runs "DUMMY" "p1" became_paid 7 charged

approve_refund-Runs_example :
    Runs contested idle
      (approve_refund "r1" (some (pos 9000)) 8 manager)
      (RefundsEffect.Answered "r1" (some (pos 9000)) 8 manager contested)
approve_refund-Runs_example = approve_refund-Runs "r1" (some (pos 9000)) 8 manager contested

approve_refund_once_example :
    let (answer, s) = approve_refund "r1" (some (pos 9000)) 8 manager (start calm contested) in
    let r' = approved (pos 9000) "u9" 8 refund in
    (answer ≡ exit (json 200 (refund_body r')))
    × (find_key refund_key "r1" s.tables.refunds ≡ some r')
    × (find_key payment_key "p1" s.tables.payments ≡ some (payment_in refunded))
    × (s.tables.outbox_events ≡ refunded_event refund (pos 9000) ∷ [])
    × ((approve_refund "r1" none 9 manager (start calm s.tables)).1.tables ≡ s.tables)
unfolding find_key
approve_refund_once_example =
    approve_refund_once "r1" (pos 9000) 8 manager contested refund (payment_in paid) none 9 manager
      calm refl refl refl refl refl

abbrev cash_row : Payment
cash_row = record {
  id = "p1";
  payment_code = "PAY-1";
  order_id = "o1";
  customer_id = "c1";
  amount = pos 19540;
  method = "CASH";
  status = paid;
  paid_at = some 5;
  provider = "CASH";
  provider_ref = none;
  checkout_url = none;
  qr_string = none;
}

abbrev outside_again : Outside
outside_again = record outside { id = "p2"; payment_code = "PAY-2"; now = 6 }

cash_paid_once_example :
    let (answer, s) = create_payment cash outside (start calm empty) in
    (answer ≡ exit (json 201 (payment_body cash_row)))
    × (find_key payment_key "p1" s.tables.payments ≡ some cash_row)
    × (s.tables.outbox_events
        ≡ payment_event "payment.paid" cash_row ∷ payment_event "payment.created" cash_row ∷ [])
    × ((create_payment cash outside_again (start calm s.tables)).1.tables ≡ s.tables)
unfolding find_key
cash_paid_once_example =
    cash_paid_once cash cash outside outside_again empty core_order calm refl refl refl refl refl
      refl refl refl refl refl refl refl

abbrev settled_up : Tables
settled_up = record empty { payments = payment_in paid ∷ [] }

create_refund-Runs_example :
    Runs settled_up idle
      (create_refund "p1" "Damaged" (some core_order) "r1" "RFD-1" manager)
      (RequestEffect.Answered "p1" "Damaged" (some core_order) "r1" "RFD-1" manager settled_up)
create_refund-Runs_example =
    create_refund-Runs "p1" "Damaged" (some core_order) "r1" "RFD-1" manager settled_up
