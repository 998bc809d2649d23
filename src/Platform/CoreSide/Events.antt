-- ===== src/Platform/CoreSide/Events.antt =====
-- The delivery of an event to Core marks an order as paid only if it is a `payment.paid` event for
-- that order (services/core/internal/handler/payment_events.go).
use laundry_platform.Base.{
  ℕ, String, List, none, some, Bool, true, false, ◌≡◌, refl, sym, subst, inl, inr, arith,
  Bool-cases, if◌then◌else◌, not,
}
use laundry_platform.Db.{Reply, start}
use laundry_platform.Db.Runs.{Runs-Keeps}
use laundry_platform.Core.OrderState.{weighing, washing, cancelled, status_eq}
use laundry_platform.Core.Tables.{Tables, Order, PaymentStatus, paid, refunded}
use laundry_platform.Core.PaymentEvents.{
  Envelope, Verdict, extract_order_id, set_payment_if, set_payment, project_row, processed, mark,
  is_paid, handle_envelope,
}
use laundry_platform.Core.PaymentEvents.Effect.{
  Reacts, on_created, on_paid, on_failed, on_refunded, paid_effect, refunded_effect,
}
use laundry_platform.Core.PaymentEvents.Delivery.{
  Handled, put_back, seen_before, reacted, nothing_to_do, handle_envelope-Runs,
}
use laundry_platform.Platform.CoreSide.{PaidOrders, PaidOrders-update, moved_if-PaidOrders}

project-id :
    (status : PaymentStatus) (froms : List PaymentStatus) (x : Order)
    → (project_row status froms x).id ≡ x.id
unfolding project_row
project-id status froms x = ground arith

project-paid :
    (status : PaymentStatus) (froms : List PaymentStatus) (x : Order)
    → is_paid status ≡ false
    → (project_row status froms x).payment_status ≡ paid
    → x.payment_status ≡ paid
unfolding project_row
project-paid status froms x e p = ground arith

module _ (ok : String → Type 0) (env : Envelope)
    (announced : env.event_type ≡ "payment.paid"
      → (id : String) → extract_order_id env ≡ some id
      → ok id)
    (t : Tables) (before : PaidOrders ok t.orders) where
  project-PaidOrders :
      (id : String) (status : PaymentStatus) (froms : List PaymentStatus)
      → is_paid status ≡ false
      → PaidOrders ok (set_payment_if id status froms t).orders
  unfolding set_payment_if
  project-PaidOrders id status froms e =
      PaidOrders-update ok id (project_row status froms) t.orders (project-id status froms)
        (λ x found p. before id x found (project-paid status froms x e p)) before

  paid-PaidOrders : (id : String) (o : Order) → ok id → PaidOrders ok (paid_effect id o t).orders
  unfolding paid_effect set_payment
  paid-PaidOrders id o is_ok =
      moved_if-PaidOrders ok (status_eq o.status weighing) id weighing washing "" none false _
        (PaidOrders-update ok id _ t.orders (λ x. refl) (λ x found p. is_ok) before)

  refunded-PaidOrders : (id : String) (o : Order) → PaidOrders ok (refunded_effect id o t).orders
  unfolding refunded_effect set_payment
  refunded-PaidOrders id o =
      moved_if-PaidOrders ok (not (status_eq o.status cancelled)) id o.status cancelled ""
        (some "Refunded") false _ (after (is_paid o.payment_status))
    where
      after : (b : Bool) → PaidOrders ok (if b then set_payment id refunded t else t).orders
      after true = PaidOrders-update ok id _ t.orders (λ x. refl) (λ x found p. absurd (cc)) before
      after false = before

  Reacts-PaidOrders :
      (id : String) (u : Tables)
      → extract_order_id env ≡ some id
      → Reacts env id t u
      → PaidOrders ok u.orders
  Reacts-PaidOrders id u x (on_created e) = project-PaidOrders id _ _ refl
  Reacts-PaidOrders id u x (on_failed e) = project-PaidOrders id _ _ refl
  Reacts-PaidOrders id u x (on_paid o e f) = paid-PaidOrders id o (announced e id x)
  Reacts-PaidOrders id u x (on_refunded o e f) = refunded-PaidOrders id o

  orders-mark : (e : String) (u : Tables) → (mark e u).orders ≡ u.orders
  unfolding mark
  orders-mark e u = elim (Bool-cases (processed e u)) [ inl q ↦ rw q refl | inr q ↦ rw q refl ]

  pub handle_envelope-PaidOrders :
      (net : ℕ → Reply) → PaidOrders ok (handle_envelope env (start net t)).1.tables.orders
  handle_envelope-PaidOrders net =
      Runs-Keeps (λ x. PaidOrders ok x.orders) (handle_envelope-Runs env t) keep net
    where
      keep : (v : Verdict) (t' : Tables) → Handled env t v t' → PaidOrders ok t'.orders
      keep v t' put_back = before
      keep v t' (seen_before e) = before
      keep v t' (reacted w id u fresh x r) =
          subst (PaidOrders ok) (sym (orders-mark env.event_id u)) (Reacts-PaidOrders id u x r)
      keep v t' (nothing_to_do e) = before
