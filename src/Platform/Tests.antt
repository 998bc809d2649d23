-- ===== src/Platform/Tests.antt =====
-- Core and Payment together: an order is paid in cash, the event reaches Core, and washing begins.
use laundry_platform.Base.{
  ◌≡◌, refl, ap, ◌∙◌, sym, subst, [], ◌∷◌, none, some, inl, inr, find_key, update_key, String,
  Bool-cases, arith, str_eq,
}
use laundry_platform.Base.Int.{pos}
use laundry_platform.Db.{calm, start}
use laundry_platform.Core.OrderState.{weighing, washing}
use laundry_platform.Core.Tables.{Order, unpaid, paid, order_key}
use laundry_platform.Core.Samples.{thousandths, shop, order_in, weighing-Inv}
use laundry_platform.Core.Transition.Effect.{moved}
use laundry_platform.Core.PaymentEvents.{processed, mark, set_payment, handle_envelope}
use laundry_platform.Core.PaymentEvents.Calm.{payment_starts_washing}
use laundry_platform.Payment.Tables as Payment
use laundry_platform.Payment.Create.{
  CoreOrder, CreateRequest, Outside, payment_event, cash_payment, valid_method, charge_guards,
  payment_row, charged_payment, insert_payment,
}
use laundry_platform.Payment.Create.Calm.{create_payment_succeeds}
use laundry_platform.Platform.{
  State, at_payment, delivery, charge, serve_payment, here, after, InOutbox, newest, envelope,
}
use laundry_platform.Platform.Safety.{Sound, PaidFor, washed_is_PaidFor}

abbrev nothing_charged : Payment.Tables
nothing_charged = record {
  payments = [];
  payment_transactions = [];
  refunds = [];
  outbox_events = [];
}

abbrev at_core : CoreOrder
at_core = record {
  customer_id = "c1";
  status = "WEIGHING";
  payment_status = "UNPAID";
  total_amount = some (pos 19540);
}

abbrev cash : CreateRequest
cash = record { order_id = "o1"; amount = pos 19540; method = "CASH" }

abbrev outside : Outside
outside = record {
  core_order = some at_core;
  provider_name = "DUMMY";
  charge = none;
  id = "p1";
  payment_code = "PAY-1";
  now = 5;
}

abbrev cash_row : Payment.Payment
cash_row = record {
  id = "p1";
  payment_code = "PAY-1";
  order_id = "o1";
  customer_id = "c1";
  amount = pos 19540;
  method = "CASH";
  status = Payment.Status.paid;
  paid_at = some 5;
  provider = "CASH";
  provider_ref = none;
  checkout_url = none;
  qr_string = none;
}

abbrev start_state : State
start_state = record { core = shop weighing unpaid; payment = nothing_charged }

abbrev charged_state : State
charged_state = record start_state {
  payment = (serve_payment (charge cash outside) (start calm nothing_charged)).1.tables;
}

abbrev event : Payment.OutboxRow
event = payment_event "payment.paid" cash_row

abbrev end_state : State
end_state = record charged_state {
  core = (handle_envelope (envelope "e1" event) (start calm charged_state.core)).1.tables;
}

nothing_stands : (e : Payment.OutboxRow) → InOutbox e [] → ⊥
nothing_stands e h = elim h [ ]

nobody_paid :
    (id : String) (o : Order)
    → find_key order_key id (shop weighing unpaid).orders ≡ some o
    → o.payment_status ≡ paid
    → ⊥
unfolding find_key
nobody_paid id o found is_paid = elim (Bool-cases (str_eq "o1" id)) [
  | inl e ↦
      let z : order_in weighing unpaid ≡ o = ground (arith, found, e) in
      let q : (order_in weighing unpaid).payment_status ≡ paid =
        ap (λ x. x.payment_status) z ∙ is_paid in
      absurd (cc)
  | inr e ↦ ground (arith, found, e)
]

start_state-Sound : Sound start_state
unfolding find_key
start_state-Sound = record {
  core_inv = weighing-Inv;
  announced = λ e stands. absurd (nothing_stands e stands);
  paid_orders = λ id o found is_paid. absurd (nobody_paid id o found is_paid);
}

event-InOutbox : InOutbox event charged_state.payment.outbox_events
unfolding serve_payment find_key valid_method charge_guards payment_row cash_payment charged_payment
    insert_payment
event-InOutbox =
    subst (λ (t : Payment.Tables). InOutbox event t.outbox_events)
      (sym (
        (create_payment_succeeds cash outside nothing_charged
          (record nothing_charged { payments = cash_row ∷ [] }) at_core cash_row 1 refl refl refl
          refl refl).1))
      (newest _)

in_washing : find_key order_key "o1" end_state.core.orders ≡ some (order_in washing paid)
unfolding find_key processed mark moved set_payment update_key
in_washing =
    ap (λ t. find_key order_key "o1" t.orders)
      ((payment_starts_washing "e1" "o1" (shop weighing unpaid) (order_in weighing unpaid) refl refl
        refl refl).1)

washed_is_PaidFor_example : PaidFor end_state "o1"
washed_is_PaidFor_example =
    washed_is_PaidFor thousandths start_state end_state start_state-Sound
      (after charged_state end_state
        (after start_state charged_state here (at_payment (charge cash outside) calm))
        (delivery "e1" event calm event-InOutbox))
      "o1" (order_in washing paid) in_washing refl
