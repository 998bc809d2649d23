-- ===== src/Platform/CoreSide/Requests.antt =====
-- Requests to Core keep its invariant, and mark no order as paid.
use laundry_platform.Base.{
  ℕ, String, Option, none, false, ◌≡◌, refl, sym, ap, subst, inl, inr, arith,
}
use laundry_platform.Db.{applied, Reply, start, row_or, done_or}
use laundry_platform.Db.Runs.{
  Runs, Runs-Keeps, Runs-respond_bind, Runs-respond, Runs-respond_if, Runs-pure, idle,
}
use laundry_platform.Db.Calls.{Runs-exec_pool, Runs-query_pool}
use laundry_platform.Shared.HttpAuth.{Principal}
use laundry_platform.Core.OrderState.{
  Status, status_eq, created, received, weighing, ready, delivered,
}
use laundry_platform.Core.Tables.{Tables, Fulfillment, Float64}
use laundry_platform.Core.Float.{FloatOps}
use laundry_platform.Core.Response.{Response, error, json}
use laundry_platform.Core.Transition.{ptr}
use laundry_platform.Core.Invariant.{Inv, OrdersOk}
use laundry_platform.Core.Create.{CreateRequest, Fresh}
use laundry_platform.Core.CreateOrder.Effect as CreateEffect
use laundry_platform.Core.CreateOrder.Effect.{create_order-Runs}
use laundry_platform.Core.CreateOrder.Inv.{create_order-Inv}
use laundry_platform.Core.ChangeStatus.{ChangeStatusRequest}
use laundry_platform.Core.ChangeStatus.Effect as ChangeEffect
use laundry_platform.Core.ChangeStatus.Effect.{change_order_status-Runs}
use laundry_platform.Core.ChangeStatus.Inv.{change_order_status-Inv}
use laundry_platform.Core.Weigh.Effect as WeighEffect
use laundry_platform.Core.Weigh.Effect.{weigh_item-Runs}
use laundry_platform.Core.Weigh.Inv.{weigh_item-Inv, set_weight_applied}
use laundry_platform.Core.Finalize.{FinalizeRequest, bill_of, billed_row}
use laundry_platform.Core.Finalize.Effect as FinalizeEffect
use laundry_platform.Core.Finalize.Effect.{finalize_weighing-Runs}
use laundry_platform.Core.Finalize.Total.{finalize_weighing-Inv, set_bill_applied}
use laundry_platform.Core.Fulfillment.{
  Table, pickups, deliveries, UpdateRequest, insert_request, with_rows, set_progress,
  request_pickup, request_delivery, update_pickup, update_delivery,
}
use laundry_platform.Core.Fulfillment.Effect as FulfillmentEffect
use laundry_platform.Core.Fulfillment.Effect.{update_fulfillment-Runs}
use laundry_platform.Core.Fulfillment.Inv.{update_pickup_or_delivery-Inv}
use laundry_platform.Core.Tax.Effect as TaxEffect
use laundry_platform.Core.Tax.Effect.{set_tax_rate-Runs}
use laundry_platform.Platform.{
  CoreRequest, create, change_status, weigh, finalize, ask_pickup, ask_delivery, progress_pickup,
  progress_delivery, change_tax, serve_core,
}
use laundry_platform.Platform.CoreSide.{
  PaidOrders, PaidOrders-kept, PaidOrders-append, moved-PaidOrders, moved_if-PaidOrders,
}

-- Nothing of the orders and of their audit trail changes.
abbrev Untouched : Tables → Tables → Type 0
Untouched t t' = (t'.orders ≡ t.orders) × (t'.order_status_history ≡ t.order_status_history)

request-Untouched :
    (table : Table) (f : Fulfillment) (t : Tables) (n : ℕ) (y : Tables)
    → insert_request table f t ≡ applied n y
    → Untouched t y
unfolding insert_request with_rows
request-Untouched pickups f t n y e = ground arith
request-Untouched deliveries f t n y e = ground arith

module _ (t : Tables) where
  ask_pickup-Runs :
      (order address window id : String)
      → Runs t idle (request_pickup order address window id) (λ r t'. Untouched t t')
  unfolding request_pickup done_or
  ask_pickup-Runs order address window id =
      Runs-exec_pool _ _
        (λ n y e.
          let u = request-Untouched pickups _ t n y e in
          (Runs-pure _ _ (Runs-respond _ u), Runs-respond_bind _ _ u))
        (λ e. Runs-respond_bind _ _ (refl, refl)) (Runs-respond_bind _ _ (refl, refl))

  ask_delivery-Runs :
      (order address window id : String)
      → Runs t idle (request_delivery order address window id) (λ r t'. Untouched t t')
  unfolding request_delivery done_or row_or
  ask_delivery-Runs order address window id =
      Runs-query_pool _ _
        (λ o found. Runs-pure _ _ (
          Runs-respond_if _ _ _ _ (λ e. (refl, refl))
            (λ is_ready.
              Runs-exec_pool _ _
                (λ n y e.
                  let u = request-Untouched deliveries _ t n y e in
                  (Runs-pure _ _ (Runs-respond _ u), Runs-respond_bind _ _ u))
                (λ e. Runs-respond_bind _ _ (refl, refl)) (Runs-respond_bind _ _ (refl, refl)))))
        (λ e. Runs-respond_bind _ _ (refl, refl)) (Runs-respond_bind _ _ (refl, refl))

  tax-Untouched :
      (ops : FloatOps) (rate : Float64) (reason id : String) (now : ℕ) (p : Principal)
      (r : Response) (t' : Tables)
      → TaxEffect.Answered ops rate reason id now p t r t'
      → Untouched t t'
  tax-Untouched ops rate reason id now p (error n c) t' (inl same) =
      (ap (λ x. x.orders) same, ap (λ x. x.order_status_history) same)
  tax-Untouched ops rate reason id now p (error n c) t' (inr (e, w)) =
      (ap (λ x. x.orders) w.committed, ap (λ x. x.order_status_history) w.committed)
  tax-Untouched ops rate reason id now p (json n b) t' (e, w) =
      (ap (λ x. x.orders) w.committed, ap (λ x. x.order_status_history) w.committed)

  Untouched-Inv : Inv t → (t' : Tables) → Untouched t t' → Inv t'
  Untouched-Inv inv t' (p, q) =
      subst (λ os. OrdersOk t'.order_status_history os) (sym p)
        (subst (λ hs. OrdersOk hs t.orders) (sym q) inv)

  pub serve_core-Inv :
      (ops : FloatOps) (r : CoreRequest) (net : ℕ → Reply)
      → Inv t
      → Inv (serve_core ops r (start net t)).1.tables
  unfolding serve_core
  serve_core-Inv ops (create req fresh) net inv = create_order-Inv ops req fresh t net inv
  serve_core-Inv ops (change_status id req p) net inv = change_order_status-Inv id req p t net inv
  serve_core-Inv ops (weigh order item weight p) net inv =
      weigh_item-Inv ops order item weight p t net inv
  serve_core-Inv ops (finalize id req) net inv = finalize_weighing-Inv ops id req t net inv
  serve_core-Inv ops (ask_pickup order address window id) net inv =
      Runs-Keeps Inv (ask_pickup-Runs order address window id) (λ r t' u. Untouched-Inv inv t' u)
        net
  serve_core-Inv ops (ask_delivery order address window id) net inv =
      Runs-Keeps Inv (ask_delivery-Runs order address window id) (λ r t' u. Untouched-Inv inv t' u)
        net
  serve_core-Inv ops (progress_pickup id req now p) net inv =
      (update_pickup_or_delivery-Inv id req now p t net inv).0
  serve_core-Inv ops (progress_delivery id req now p) net inv =
      (update_pickup_or_delivery-Inv id req now p t net inv).1
  serve_core-Inv ops (change_tax rate reason id now p) net inv =
      Runs-Keeps Inv (set_tax_rate-Runs ops rate reason id now p t)
        (λ r t' a. Untouched-Inv inv t' (tax-Untouched ops rate reason id now p r t' a)) net

module _ (ok : String → Type 0) (t : Tables) (paid_before : PaidOrders ok t.orders) where
  abbrev Ok : Tables → Type 0
  Ok x = PaidOrders ok x.orders

  as_before : (t' : Tables) → t'.orders ≡ t.orders → PaidOrders ok t'.orders
  as_before t' same = subst (PaidOrders ok) (sym same) paid_before

  Created-PaidOrders :
      (ops : FloatOps) (req : CreateRequest) (fresh : Fresh) (r : Response) (t' : Tables)
      → CreateEffect.Answered ops req fresh t r t'
      → PaidOrders ok t'.orders
  Created-PaidOrders ops req fresh r t' a = go r a
    where
      new : CreateEffect.Created ops req fresh t t' → PaidOrders ok t'.orders
      new w =
          subst (PaidOrders ok) (sym (ap (λ k. k.0) w.committed))
            (PaidOrders-append ok w.order t.orders w.new_id w.not_paid paid_before)

      go : (r : Response) → CreateEffect.Answered ops req fresh t r t' → PaidOrders ok t'.orders
      go (error n c) (inl same) = as_before t' (ap (λ k. k.0) same)
      go (error n c) (inr (e, w)) = new w
      go (json n b) (e, w) = new w

  Changed-PaidOrders :
      (id : String) (req : ChangeStatusRequest) (p : Principal) (r : Response) (t' : Tables)
      → ChangeEffect.Answered id req p t r t'
      → PaidOrders ok t'.orders
  Changed-PaidOrders id req p r t' a = go r a
    where
      new : ChangeEffect.Changed id req p t t' → PaidOrders ok t'.orders
      new w =
          subst (λ x. PaidOrders ok x.orders) (sym w.committed)
            (moved-PaidOrders ok id w.order.status req.to_status p.id (ptr req.reason) false t
              paid_before)

      go : (r : Response) → ChangeEffect.Answered id req p t r t' → PaidOrders ok t'.orders
      go (error n c) (inl same) = as_before t' (ap (λ x. x.orders) same)
      go (error n c) (inr (e, w)) = new w
      go (json n b) (e, w) = new w

  Weighed-PaidOrders :
      (ops : FloatOps) (order item : String) (weight : Float64) (p : Principal) (r : Response)
      (t' : Tables)
      → WeighEffect.Answered ops order item weight p t r t'
      → PaidOrders ok t'.orders
  Weighed-PaidOrders ops order item weight p r t' a = go r a
    where
      new : WeighEffect.Weighed ops order item weight p t t' → PaidOrders ok t'.orders
      new w =
          let (kept_weight, u) =
            set_weight_applied ops item weight _ t w.rows w.stored w.weight_set in
          subst (λ x. PaidOrders ok x.orders) (sym w.committed)
            (moved_if-PaidOrders ok (status_eq w.found.status received) order received weighing p.id
              none false w.stored (as_before w.stored (ap (λ x. x.orders) u)))

      go :
          (r : Response)
          → WeighEffect.Answered ops order item weight p t r t'
          → PaidOrders ok t'.orders
      go (error n c) (inl same) = as_before t' (ap (λ x. x.orders) same)
      go (error n c) (inr (e, w)) = new w
      go (json n b) (e, w) = new w

  Finalized-PaidOrders :
      (ops : FloatOps) (id : String) (req : FinalizeRequest) (r : Response) (t' : Tables)
      → FinalizeEffect.Answered ops id req t r t'
      → PaidOrders ok t'.orders
  unfolding billed_row
  Finalized-PaidOrders ops id req r t' a = go r a
    where
      new : FinalizeEffect.Finalized ops id req t t' → PaidOrders ok t'.orders
      new w =
          let b = bill_of ops req w.order w.subtotal w.rate in
          let (ok_checks, (rate, u)) = set_bill_applied ops id b t w.rows w.billed w.bill_set in
          subst (λ x. PaidOrders ok x.orders) (sym w.committed)
            (subst (λ x. PaidOrders ok x.orders) (sym u)
              (PaidOrders-kept ok id (billed_row b rate) t.orders (λ x. refl) (λ x. refl)
                paid_before))

      go : (r : Response) → FinalizeEffect.Answered ops id req t r t' → PaidOrders ok t'.orders
      go (error n c) (inl same) = as_before t' (ap (λ x. x.orders) same)
      go (error n c) (inr (e, w)) = new w
      go (json n b) (e, w) = new w

  progress-orders :
      (table : Table) (id : String) (req : UpdateRequest) (at : Option ℕ)
      → (set_progress table id req at t).orders ≡ t.orders
  unfolding set_progress with_rows
  progress-orders pickups id req at = refl
  progress-orders deliveries id req at = refl

  Updated-PaidOrders :
      (table : Table) (from to : Status) (id : String) (req : UpdateRequest) (now : ℕ)
      (p : Principal) (r : Response) (t' : Tables)
      → FulfillmentEffect.Answered table from to id req now p t r t'
      → PaidOrders ok t'.orders
  Updated-PaidOrders table from to id req now p r t' a = go r a
    where
      u : Tables
      u = FulfillmentEffect.progressed table from to id req now p t

      u-PaidOrders : PaidOrders ok u.orders
      u-PaidOrders = as_before u (progress-orders table id req _)

      new : FulfillmentEffect.Updated table from to id req now p t t' → PaidOrders ok t'.orders
      new w = elim w.outcome [
        | inl (e, same) ↦ subst (λ x. PaidOrders ok x.orders) (sym same) u-PaidOrders
        | inr (o, e, found, same) ↦
            subst (λ x. PaidOrders ok x.orders) (sym same)
              (moved_if-PaidOrders ok (status_eq o.status from) w.request.order_id from to p.id none
                false u u-PaidOrders)
      ]

      go :
          (r : Response)
          → FulfillmentEffect.Answered table from to id req now p t r t'
          → PaidOrders ok t'.orders
      go (error n c) (inl same) = as_before t' (ap (λ x. x.orders) same)
      go (error n c) (inr (e, w)) = new w
      go (json n b) (e, w) = new w

  -- A request to Core.
  pub serve_core-PaidOrders :
      (ops : FloatOps) (r : CoreRequest) (net : ℕ → Reply)
      → PaidOrders ok (serve_core ops r (start net t)).1.tables.orders
  unfolding serve_core update_pickup update_delivery
  serve_core-PaidOrders ops (create req fresh) net =
      Runs-Keeps Ok (create_order-Runs ops req fresh t) (Created-PaidOrders ops req fresh) net
  serve_core-PaidOrders ops (change_status id req p) net =
      Runs-Keeps Ok (change_order_status-Runs id req p t) (Changed-PaidOrders id req p) net
  serve_core-PaidOrders ops (weigh order item weight p) net =
      Runs-Keeps Ok (weigh_item-Runs ops order item weight p t)
        (Weighed-PaidOrders ops order item weight p) net
  serve_core-PaidOrders ops (finalize id req) net =
      Runs-Keeps Ok (finalize_weighing-Runs ops id req t) (Finalized-PaidOrders ops id req) net
  serve_core-PaidOrders ops (ask_pickup order address window id) net =
      Runs-Keeps Ok (ask_pickup-Runs t order address window id) (λ r t' u. as_before t' u.0) net
  serve_core-PaidOrders ops (ask_delivery order address window id) net =
      Runs-Keeps Ok (ask_delivery-Runs t order address window id) (λ r t' u. as_before t' u.0) net
  serve_core-PaidOrders ops (progress_pickup id req now p) net =
      Runs-Keeps Ok (update_fulfillment-Runs pickups created received id req now p t)
        (Updated-PaidOrders pickups created received id req now p) net
  serve_core-PaidOrders ops (progress_delivery id req now p) net =
      Runs-Keeps Ok (update_fulfillment-Runs deliveries ready delivered id req now p t)
        (Updated-PaidOrders deliveries ready delivered id req now p) net
  serve_core-PaidOrders ops (change_tax rate reason id now p) net =
      Runs-Keeps Ok (set_tax_rate-Runs ops rate reason id now p t)
        (λ r t' a. as_before t' (tax-Untouched t ops rate reason id now p r t' a).0) net
