-- ===== src/Platform/Safety.antt =====
-- What holds of Core and Payment together, whatever happens in which order.
use laundry_platform.Base.{
  String, some, true, ◌≡◌, find_key, arith, subst, inl, inr, Bool-cases, str_eq,
}
use laundry_platform.Core.Tables.{Order, paid, order_key}
use laundry_platform.Core.Float.{FloatOps}
use laundry_platform.Core.Invariant.{Inv, RowOk, is_past_weighing}
use laundry_platform.Core.PaymentEvents.{extract_order_id}
use laundry_platform.Core.PaymentEvents.Inv.{handle_envelope-Inv}
use laundry_platform.Payment.Tables as Payment
use laundry_platform.Platform.{
  State, Step, at_core, at_payment, delivery, Reach, here, after, envelope,
}
use laundry_platform.Platform.CoreSide.{PaidOrders}
use laundry_platform.Platform.CoreSide.Requests.{serve_core-Inv, serve_core-PaidOrders}
use laundry_platform.Platform.CoreSide.Events.{handle_envelope-PaidOrders}
use laundry_platform.Platform.PaymentSide.{has_settled, Announced}
use laundry_platform.Platform.PaymentSide.Requests.{serve_payment-Backed}

-- The order has a payment that was paid, and is not lost: it is paid, or refunded.
abbrev pub PaidFor : State → String → Type 0
PaidFor s id = has_settled id s.payment.payments ≡ true

-- Core's own invariant, a payment behind each announcement, and one behind each order that is
-- marked as paid.
pub record Sound (s : State) : Type 0 where
  pub core_inv : Inv s.core
  pub announced : Announced s.payment
  pub paid_orders : PaidOrders (PaidFor s) s.core.orders

some-injective : {a b : String} → some a ≡ some b → a ≡ b
some-injective e = cc

-- The envelope of a row names the row's order.
extract-envelope :
    (event_id : String) (e : Payment.OutboxRow) (id : String)
    → extract_order_id (envelope event_id e) ≡ some id
    → e.order_id ≡ id
unfolding extract_order_id
extract-envelope event_id e id q = elim (Bool-cases (str_eq e.order_id "")) [
  | inl z ↦ absurd (ground (arith, q, z))
  | inr z ↦ ground (arith, q, z)
]

Step-Sound : (ops : FloatOps) (s s' : State) → Sound s → Step ops s s' → Sound s'
Step-Sound ops s s' h (at_core r net) = record {
  core_inv = serve_core-Inv s.core ops r net h.core_inv;
  announced = h.announced;
  paid_orders = serve_core-PaidOrders (PaidFor s) s.core h.paid_orders ops r net;
}
Step-Sound ops s s' h (at_payment r net) =
    let (still, announced) =
      serve_payment-Backed (PaidFor s) s.payment ((λ x k. k), h.announced) r net in
    record {
      core_inv = h.core_inv;
      announced = announced;
      paid_orders = λ id o found is_paid. still id (h.paid_orders id o found is_paid);
    }
Step-Sound ops s s' h (delivery event_id e net stands) = record {
  core_inv = handle_envelope-Inv (envelope event_id e) s.core net h.core_inv;
  announced = h.announced;
  paid_orders =
      handle_envelope-PaidOrders (PaidFor s) (envelope event_id e)
        (λ is_paid id q.
          subst (PaidFor s) (extract-envelope event_id e id q) (h.announced e stands is_paid))
        s.core h.paid_orders net;
}

Reach-Sound : (ops : FloatOps) (s s' : State) → Sound s → Reach ops s s' → Sound s'
Reach-Sound ops s s' h here = h
Reach-Sound ops s s' h (after u v r step) = Step-Sound ops u v (Reach-Sound ops s u h r) step

-- From a sound state (Core's invariant holds, and each order marked as paid and each announced
-- payment has a payment that was paid), after any requests to Core and Payment and any deliveries
-- of Payment's events to Core, in any order and under any replies: an order that is past weighing
-- has a payment in Payment's table that is paid or refunded.
pub washed_is_PaidFor :
    (ops : FloatOps) (s s' : State)
    → Sound s
    → Reach ops s s'
    → (id : String) (o : Order) → find_key order_key id s'.core.orders ≡ some o
    → is_past_weighing o.status ≡ true
    → PaidFor s' id
washed_is_PaidFor ops s s' h r id o found past =
    let sound = Reach-Sound ops s s' h r in
    sound.paid_orders id o found (paid_row (sound.core_inv id))
  where
    paid_row :
        RowOk s'.core.order_status_history id (find_key order_key id s'.core.orders)
        → o.payment_status ≡ paid
    paid_row row = (subst (RowOk s'.core.order_status_history id) found row).0 past
