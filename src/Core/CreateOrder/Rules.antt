-- ===== src/Core/CreateOrder/Rules.antt =====
-- How the parts of `create_order` (services/core/internal/handler/orders.go) go on, and what their
-- statements leave of the orders, the audit trail and the outbox.
use laundry_platform.Base.{
  ℕ, String, List, [], ◌∷◌, ◌++◌, none, Bool, true, false, not, ◌≡◌, refl, ◌∙◌, inl, inr, arith,
  find_key, if◌then◌else◌, str_eq, Bool-cases,
}
use laundry_platform.Base.Int.{ℤ}
use laundry_platform.Db.{M, Exec, Fetch, applied, ◌>>=◌, row_or, done_or, pure, respond}
use laundry_platform.Db.Runs.{
  Runs, Runs-pure, Runs-respond_bind, Runs-assoc, seeing, broken, Tx, Tx,
}
use laundry_platform.Db.Calls.{
  Runs-query_tx, Runs-query_tx_broken, Runs-exec_tx, Runs-exec_tx_broken,
}
use laundry_platform.Core.OrderState.{created}
use laundry_platform.Core.Tables.{
  Tables, Order, HistoryRow, OutboxRow, Service, Customer, Fulfillment, order_key, order_created,
}
use laundry_platform.Core.Float.{FloatOps}
use laundry_platform.Core.Response.{Response, error}
use laundry_platform.Core.Transition.{insert_history}
use laundry_platform.Core.Pricing.{active_price_tx}
use laundry_platform.Core.Create.{
  ItemRequest, Prepared, Estimate, prepare, active_service, insert_order, insert_item, insert_items,
  unavailable,
}
use laundry_platform.Core.CreateOrder.{insert_customer, insert_pickup, insert_delivery, attempt_if}

-- The tables that the theorem is about.
abbrev pub kept : Tables → List Order × List HistoryRow × List OutboxRow
kept t = (t.orders, t.order_status_history, t.outbox_events)

abbrev pub first_row : String → HistoryRow
first_row id = record {
  order_id = id;
  from_status = none;
  to_status = created;
  reason = none;
  performed_by = none;
  is_administrative_override = false;
}

abbrev pub created_event : Order → OutboxRow
created_event o = record {
  aggregate_id = o.id;
  event_type = "order.created";
  payload = order_created o.id o.order_code o.customer_id o.current_outlet_id;
}

pub item-kept :
    (ops : FloatOps) (id : String) (p : Prepared) (x : Tables) (n : ℕ) (y : Tables)
    → insert_item ops id p x ≡ applied n y
    → kept y ≡ kept x
unfolding insert_item
item-kept ops id p x n y e = ground arith

pub pickup-kept :
    (f : Fulfillment) (x : Tables) (n : ℕ) (y : Tables)
    → insert_pickup f x ≡ applied n y
    → kept y ≡ kept x
unfolding insert_pickup
pickup-kept f x n y e = ground arith

pub delivery-kept :
    (f : Fulfillment) (x : Tables) (n : ℕ) (y : Tables)
    → insert_delivery f x ≡ applied n y
    → kept y ≡ kept x
unfolding insert_delivery
delivery-kept f x n y e = ground arith

pub customer-kept :
    (c : Customer) (x : Tables) (n : ℕ) (y : Tables)
    → insert_customer c x ≡ applied n y
    → kept y ≡ kept x
unfolding insert_customer
customer-kept c x n y e = ground arith

pub history-kept :
    (h : HistoryRow) (x : Tables) (n : ℕ) (y : Tables)
    → insert_history h x ≡ applied n y
    → kept y ≡ (x.orders, h ∷ x.order_status_history, x.outbox_events)
unfolding insert_history
history-kept h x n y e = ground arith

pub order-inserted :
    (o : Order) (x : Tables) (n : ℕ) (y : Tables)
    → insert_order o x ≡ applied n y
    → (kept y ≡ (x.orders ++ o ∷ [], x.order_status_history, x.outbox_events))
      × (find_key order_key o.id x.orders ≡ none)
unfolding insert_order
order-inserted o x n y e = ground arith

module _ {B : Type 0} {t : Tables} {Q : Response → Tables → Type 0} where
  pub price-Runs :
      (service outlet : String) (x : Tables) (f : Fetch ℤ → M Tables Response B)
      → ((r : Fetch ℤ) → Runs t (seeing x) (f r) Q)
      → Runs t broken (f Fetch.unreadable) Q
      → Runs t (seeing x) (active_price_tx service outlet >>= f) Q
  unfolding active_price_tx
  price-Runs service outlet x f good bad = elim (Bool-cases (not (str_eq outlet ""))) [
    | inl e ↦ rw e (
        Runs-assoc _ _ _ (
          Runs-query_tx _ _ _ (λ a q. Runs-pure _ _ (good _))
            (λ q. Runs-query_tx _ _ _ (λ a r. good _) (λ r. good _) bad)
            (Runs-query_tx_broken _ _ bad)))
    | inr e ↦ rw e (Runs-query_tx _ _ _ (λ a r. good _) (λ r. good _) bad)
  ]

  pub service-Runs :
      (r : Fetch Service) (x : Tables) (f : Service → M Tables Response B)
      → ((s : Service) → Runs t (seeing x) (f s) Q)
      → Q (error 422 "VALIDATION_ERROR") t
      → Runs t (seeing x) (active_service r >>= f) Q
  unfolding active_service
  service-Runs Fetch.no_rows x f good bad = Runs-respond_bind _ _ bad
  service-Runs Fetch.unreadable x f good bad = Runs-respond_bind _ _ bad
  service-Runs (Fetch.row s) x f good bad = go s.is_active
    where
      go : (b : Bool) → Runs t (seeing x) ((if b then pure s else respond unavailable) >>= f) Q
      go true = Runs-pure _ _ (good s)
      go false = Runs-respond_bind _ _ bad

  pub row_or-Runs :
      {A : Type 0} {v : Tx Tables} (r : Fetch A) (missing fault : Response)
      (f : A → M Tables Response B)
      → ((a : A) → Runs t v (f a) Q)
      → Q missing t
      → Q fault t
      → Runs t v (row_or missing fault r >>= f) Q
  unfolding row_or
  row_or-Runs (Fetch.row a) missing fault f good p q = Runs-pure _ _ (good a)
  row_or-Runs Fetch.no_rows missing fault f good p q = Runs-respond_bind _ _ p
  row_or-Runs Fetch.unreadable missing fault f good p q = Runs-respond_bind _ _ q

  pub prepare-Runs :
      (ops : FloatOps) (outlet : String) (is : List ItemRequest) (ids : ℕ → String) (e : Estimate)
      (x : Tables) (f : List Prepared × Estimate → M Tables Response B)
      → ((a : List Prepared × Estimate) → Runs t (seeing x) (f a) Q)
      → Q (error 422 "VALIDATION_ERROR") t
      → Runs t (seeing x) (prepare ops outlet is ids e >>= f) Q
  unfolding prepare row_or active_service
  prepare-Runs ops outlet [] ids e x f good bad = Runs-pure _ _ (good _)
  prepare-Runs ops outlet (i ∷ is) ids e x f good bad = Runs-assoc _ _ _ (
      Runs-query_tx _ _ _
        (λ s q. Runs-assoc _ _ _ (
          service-Runs (Fetch.row s) _ _
            (λ s. Runs-assoc _ _ _ (
              price-Runs _ _ _ _
                (λ r. Runs-assoc _ _ _ (
                  row_or-Runs _ _ _ _
                    (λ price.
                      Runs-assoc _ _ _
                        (prepare-Runs ops outlet is _ _ x _ (λ a. Runs-pure _ _ (good _)) bad))
                    bad bad))
                (Runs-assoc _ _ _ (Runs-respond_bind _ _ bad))))
            bad))
        (λ q. Runs-assoc _ _ _ (Runs-respond_bind _ _ bad))
        (Runs-assoc _ _ _ (Runs-respond_bind _ _ bad)))

  pub item-Runs :
      (ops : FloatOps) (id : String) (ps : List Prepared) (x : Tables)
      (f : Unit {0} → M Tables Response B)
      → ((y : Tables) → kept y ≡ kept x → Runs t (seeing y) (f tt) Q)
      → Q (error 500 "INTERNAL_ERROR") t
      → Runs t (seeing x) (insert_items ops id ps >>= f) Q
  unfolding insert_items done_or
  item-Runs ops id [] x f good bad = Runs-pure _ _ (good x refl)
  item-Runs ops id (p ∷ ps) x f good bad = Runs-assoc _ _ _ (
      Runs-exec_tx _ _ _
        (λ n y e. Runs-assoc _ _ _ (
          Runs-pure _ _
            (item-Runs ops id ps y f (λ z q. good z (q ∙ item-kept ops id p x n y e)) bad)))
        (λ e. Runs-assoc _ _ _ (Runs-respond_bind _ _ bad))
        (Runs-assoc _ _ _ (Runs-respond_bind _ _ bad)))

  -- A statement that may be left out, and whose error is not looked at.
  pub attempt-Runs :
      (b : Bool) (u : Tables → Exec Tables) (x : Tables) (f : Unit {0} → M Tables Response B)
      → (b ≡ false → Runs t (seeing x) (f tt) Q)
      → ((n : ℕ) (y : Tables) → u x ≡ applied n y → Runs t (seeing y) (f tt) Q)
      → Runs t broken (f tt) Q
      → Runs t (seeing x) (attempt_if b u >>= f) Q
  unfolding attempt_if
  attempt-Runs false u x f skip good bad = Runs-pure _ _ (skip refl)
  attempt-Runs true u x f skip good bad = Runs-assoc _ _ _ (
      Runs-exec_tx _ _ _ (λ n y e. Runs-pure _ _ (good n y e)) (λ e. Runs-pure _ _ bad)
        (Runs-pure _ _ bad))

  pub attempt-broken :
      (b : Bool) (u : Tables → Exec Tables) (f : Unit {0} → M Tables Response B)
      → Runs t broken (f tt) Q
      → Runs t broken (attempt_if b u >>= f) Q
  unfolding attempt_if
  attempt-broken false u f bad = Runs-pure _ _ bad
  attempt-broken true u f bad = Runs-assoc _ _ _ (Runs-exec_tx_broken _ _ (Runs-pure _ _ bad))
