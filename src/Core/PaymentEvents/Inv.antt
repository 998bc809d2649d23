-- ===== src/Core/PaymentEvents/Inv.antt =====
-- Payment events keep the invariant of Core's tables.
use laundry_platform.Base.{
  ℕ, String, List, Option, none, some, Bool, true, false, ◌≡◌, refl, sym, ap, ◌∙◌, subst, inl, inr,
  arith, find_key, find_key-update_key, update_key, if◌then◌else◌, Bool-cases, str_eq, eq_refl,
}
use mathlib.Core.Option
use laundry_platform.Db.{Reply, start}
use laundry_platform.Db.Runs.{Runs-Keeps}
use laundry_platform.Core.OrderState.{Status, weighing, washing, cancelled, status_eq}
use laundry_platform.Core.Tables.{Tables, Order, PaymentStatus, paid, refunded, order_key}
use laundry_platform.Core.Invariant.{
  Inv, RowOk, is_past_weighing, OrdersOk-update, moved-Inv, moved-Inv_others,
}
use laundry_platform.Core.PaymentEvents.{
  Envelope, Verdict, set_payment_if, set_payment, project_row, any_of, processed, mark, is_paid,
  handle_envelope,
}
use laundry_platform.Core.PaymentEvents.Effect.{
  Reacts, on_created, on_paid, on_failed, on_refunded, paid_effect, refunded_effect,
}
use laundry_platform.Core.PaymentEvents.Delivery.{
  Handled, put_back, seen_before, reacted, nothing_to_do, handle_envelope-Runs,
}

mark-Inv : (e : String) (t : Tables) → Inv t → Inv (mark e t)
unfolding mark
mark-Inv e t h = elim (Bool-cases (processed e t)) [ inl q ↦ rw q h | inr q ↦ rw q h ]

projected :
    (status : PaymentStatus) (froms : List PaymentStatus) (x : Order)
    → any_of froms paid ≡ false
    → ((project_row status froms x).status ≡ x.status)
      × (x.payment_status ≡ paid → (project_row status froms x).payment_status ≡ paid)
unfolding project_row
projected status froms x h = ground arith

project_row-id :
    (status : PaymentStatus) (froms : List PaymentStatus) (x : Order)
    → (project_row status froms x).id ≡ x.id
unfolding project_row
project_row-id status froms x = ground arith

-- A projection to a status other than paid starts from unpaid or pending only.
set_payment_if-Inv :
    (id : String) (status : PaymentStatus) (froms : List PaymentStatus) (t : Tables)
    → any_of froms paid ≡ false
    → Inv t
    → Inv (set_payment_if id status froms t)
unfolding set_payment_if
set_payment_if-Inv id status froms t f h =
    OrdersOk-update id _ _ _ (project_row-id status froms)
      (λ x e. let (a, b) = projected status froms x f in (a, λ p. b)) h

set_paid-Inv : (id : String) (t : Tables) → Inv t → Inv (set_payment id paid t)
unfolding set_payment
set_paid-Inv id t h = OrdersOk-update id _ _ _ (λ x. refl) (λ x e. (refl, λ p q. refl)) h

paid_of_find :
    (id : String) (t : Tables) (x : Order)
    → find_key order_key id (set_payment id paid t).orders ≡ some x
    → x.payment_status ≡ paid
unfolding set_payment
paid_of_find id t x e = paid_row (find_key order_key id t.orders) (sym found ∙ e)
  where
    set_paid : Order → Order
    set_paid y = record y { payment_status = paid }

    found :
        find_key order_key id (update_key order_key id set_paid t.orders)
        ≡ Option.map set_paid (find_key order_key id t.orders)
    found = find_key-update_key order_key id id set_paid t.orders (λ y. refl) ∙ rw (eq_refl id)

    paid_row : (o : Option Order) → Option.map set_paid o ≡ some x → x.payment_status ≡ paid
    paid_row none q = absurd (cc)
    paid_row (some y) q =
        let z : set_paid y ≡ x = cc in ap (λ (w : Order). w.payment_status) (sym z)

paid_effect-Inv : (id : String) (o : Order) (t : Tables) → Inv t → Inv (paid_effect id o t)
unfolding paid_effect
paid_effect-Inv id o t h = elim (Bool-cases (status_eq o.status weighing)) [
  | inl e ↦ rw e (
      moved-Inv id weighing washing "" none false (set_payment id paid t)
        (λ x q p. paid_of_find id t x q) (set_paid-Inv id t h))
  | inr e ↦ rw e (set_paid-Inv id t h)
]

set_refunded_others :
    (id j : String) (t : Tables)
    → str_eq id j ≡ false
    → Inv t
    → RowOk
        (set_payment id refunded t).order_status_history
        j
        (find_key order_key j (set_payment id refunded t).orders)
unfolding set_payment
set_refunded_others id j t e h =
    rw
      (find_key-update_key order_key id j (λ y. record y { payment_status = refunded }) t.orders
        (λ y. refl))
      (rw e (h j))

cancelled_not_past : (s : Status) → status_eq s cancelled ≡ true → is_past_weighing s ≡ true → ⊥
cancelled_not_past s e p = ground arith

set_refunded_cancelled :
    (id : String) (o : Order) (t : Tables)
    → find_key order_key id t.orders ≡ some o
    → status_eq o.status cancelled ≡ true
    → Inv t
    → Inv (set_payment id refunded t)
unfolding set_payment
set_refunded_cancelled id o t found e h =
    OrdersOk-update id _ _ _ (λ x. refl)
      (λ x q. (
        refl,
        λ past paid_before. absurd (
            cancelled_not_past x.status
              (subst (λ (y : Order). status_eq y.status cancelled ≡ true) (same x q) e) past),
      ))
      h
  where
    same : (x : Order) → find_key order_key id t.orders ≡ some x → o ≡ x
    same x q = let z : some o ≡ some x = sym found ∙ q in cc

-- The row that a refund leaves without paying is a cancelled one.
refunded_effect-Inv :
    (id : String) (o : Order) (t : Tables)
    → find_key order_key id t.orders ≡ some o
    → Inv t
    → Inv (refunded_effect id o t)
unfolding refunded_effect
refunded_effect-Inv id o t found h = elim (Bool-cases (status_eq o.status cancelled)) [
  | inl e ↦ rw e (kept (is_paid o.payment_status) e)
  | inr e ↦ rw e (
      moved-Inv_others id o.status cancelled "" (some "Refunded") false _ (λ x q p. absurd (cc))
        (others (is_paid o.payment_status)))
]
  where
    after : Bool → Tables
    after b = if b then set_payment id refunded t else t

    others :
        (b : Bool) (j : String)
        → str_eq id j ≡ false
        → RowOk (after b).order_status_history j (find_key order_key j (after b).orders)
    others false j e = h j
    others true j e = set_refunded_others id j t e h

    kept : (b : Bool) → status_eq o.status cancelled ≡ true → Inv (after b)
    kept false e = h
    kept true e = set_refunded_cancelled id o t found e h

Reacts-Inv :
    (env : Envelope) (id : String) (t : Tables) {u : Tables} → Reacts env id t u → Inv t → Inv u
unfolding any_of
Reacts-Inv env id t (on_created e) h = set_payment_if-Inv id _ _ t refl h
Reacts-Inv env id t (on_failed e) h = set_payment_if-Inv id _ _ t refl h
Reacts-Inv env id t (on_paid o e f) h = paid_effect-Inv id o t h
Reacts-Inv env id t (on_refunded o e f) h = refunded_effect-Inv id o t f h

-- Whatever the replies of the database, the delivery of any payment event keeps the invariant of
-- Core's tables (an order past weighing is paid, and the newest entry of its audit trail names its
-- status).
pub handle_envelope-Inv :
    (env : Envelope) (t : Tables) (net : ℕ → Reply)
    → Inv t
    → Inv (handle_envelope env (start net t)).1.tables
handle_envelope-Inv env t net inv = Runs-Keeps Inv (handle_envelope-Runs env t) keep net
  where
    keep : (v : Verdict) (t' : Tables) → Handled env t v t' → Inv t'
    keep v t' put_back = inv
    keep v t' (seen_before e) = inv
    keep v t' (reacted w id u fresh x r) = mark-Inv env.event_id u (Reacts-Inv env id t r inv)
    keep v t' (nothing_to_do e) = inv
