-- ===== src/Core/CreateOrder/Effect.antt =====
-- What `create_order` commits of the orders, the audit trail and the outbox, on every branch.
use laundry_platform.Base.{
  ℕ, String, [], ◌∷◌, ◌++◌, none, true, not, ◌≡◌, refl, sym, ◌∙◌, ◌⊎◌, inl, inr, ap, find_key,
  str_eq, Bool-cases,
}
use laundry_platform.Db.{M, Fetch, applied, ◌>>=◌, row_or, done_or, respond, need, commit}
use laundry_platform.Db.Runs.{
  Runs, Runs-respond, Runs-pure, Runs-need, Runs-respond_bind, Runs-respond_if, Runs-assoc, idle,
  seeing, broken,
}
use laundry_platform.Db.Calls.{
  Runs-query_pool, Runs-begin_tx, Runs-exec_tx, Runs-exec_tx_broken, Runs-write, Runs-commit,
  Runs-commit_broken, Runs-exec_pool,
}
use laundry_platform.Core.OrderState.{created}
use laundry_platform.Core.Tables.{Tables, Order, Customer, unpaid, order_key, order_created}
use laundry_platform.Core.Float.{FloatOps}
use laundry_platform.Core.Response.{Response, error, json, order_body, internal_error, Handler}
use laundry_platform.Core.Transition.{insert_history, insert_outbox, write_outbox_event}
use laundry_platform.Core.Fetch.{fetch_order}
use laundry_platform.Core.Fetch.Reads.{Runs-fetch_order}
use laundry_platform.Core.Create.{CreateRequest, Fresh, Estimate, insert_order, new_order}
use laundry_platform.Core.CreateOrder.{
  existing_or_guest, resolve_customer, resolve_outlet, insert_pickup, insert_delivery, attempt_if,
  new_fulfillment, create_in_tx, create_order,
}
use laundry_platform.Core.CreateOrder.Rules.{
  pickup-kept, delivery-kept, customer-kept, history-kept, order-inserted, row_or-Runs,
  prepare-Runs, item-Runs, attempt-Runs, attempt-broken, kept, first_row, created_event,
}

module _ (ops : FloatOps) (req : CreateRequest) (fresh : Fresh) (t₀ : Tables) where
  -- A new order that waits for its payment, its first entry of the audit trail and its event.
  pub record Created (t' : Tables) : Type 0 where
    pub order : Order
    pub new_id : find_key order_key order.id t₀.orders ≡ none
    pub id_given : order.id ≡ fresh.order_id
    pub starts : order.status ≡ created
    pub not_paid : order.payment_status ≡ unpaid
    pub committed : kept t' ≡ (
      t₀.orders ++ order ∷ [],
      first_row order.id ∷ t₀.order_status_history,
      created_event order ∷ t₀.outbox_events,
    )

  abbrev pub Answered : Response → Tables → Type 0
  Answered (error n c) t' = (kept t' ≡ kept t₀) ⊎ (n ≡ 500) × Created t'
  Answered (json n b) t' = (n ≡ 201) × Created t'

  abbrev show : Handler Response
  show = fetch_order fresh.order_id >>= λ out.
      row_or internal_error internal_error out >>= λ view. respond (json 201 (order_body view))

  abbrev send : String → String → Handler Response
  send customer outlet =
      write_outbox_event fresh.order_id "order.created"
        (order_created fresh.order_id fresh.order_code customer outlet)
      >>= λ _. need internal_error commit >>= λ _. show

  abbrev deliver : String → String → Handler Response
  deliver customer outlet =
      attempt_if req.delivery_requested
        (insert_delivery (new_fulfillment fresh.delivery_id fresh.order_id))
      >>= λ _. send customer outlet

  abbrev pick_up : String → String → Handler Response
  pick_up customer outlet =
      attempt_if req.pickup_requested
        (insert_pickup (new_fulfillment fresh.pickup_id fresh.order_id))
      >>= λ _. deliver customer outlet

  module _ (t : Tables) (same : kept t ≡ kept t₀) (customer outlet : String) where
    -- After a failed statement nothing is committed.
    send-broken : Runs t broken (send customer outlet) Answered
    unfolding write_outbox_event
    send-broken = Runs-assoc _ _ _ (
        Runs-exec_tx_broken _ _
          (Runs-pure _ _ (Runs-need _ _ _ _ (Runs-commit_broken _ (Runs-respond _ (inl same))))))

    pick_up-broken : Runs t broken (pick_up customer outlet) Answered
    pick_up-broken = attempt-broken _ _ _ (attempt-broken _ _ _ send-broken)

    show-Runs : (x : Tables) → Created x → Runs x idle show Answered
    unfolding row_or
    show-Runs x w =
        Runs-fetch_order _ _ (λ view s. Runs-pure _ _ (Runs-respond _ (refl, w)))
          (λ e. Runs-respond_bind _ _ (inr (refl, w))) (Runs-respond_bind _ _ (inr (refl, w)))

    module _ (estimate : Estimate) where
      new_row : Order
      new_row = new_order req fresh customer outlet estimate

      -- The order and its first entry are there, and the event is not yet.
      abbrev Pending : Tables → Type 0
      Pending x =
          (kept x ≡ (
            t₀.orders ++ new_row ∷ [],
            first_row fresh.order_id ∷ t₀.order_status_history,
            t₀.outbox_events,
          ))
          × (find_key order_key fresh.order_id t₀.orders ≡ none)

      sent :
          (x : Tables)
          → Pending x
          → Created (record x { outbox_events = created_event new_row ∷ x.outbox_events })
      unfolding new_row new_order
      sent x (q, free) = record {
        order = new_row;
        new_id = free;
        id_given = refl;
        starts = refl;
        not_paid = refl;
        committed = ap (λ k. (k.0, k.1, created_event new_row ∷ k.2)) q;
      }

      send-Runs : (x : Tables) → Pending x → Runs t (seeing x) (send customer outlet) Answered
      unfolding write_outbox_event insert_outbox new_row new_order
      send-Runs x q =
          let w = sent x q in
          Runs-assoc _ _ _ (
            Runs-write _ _ _ _
              (Runs-pure _ _ (
                Runs-need _ _ _ _ (
                  Runs-commit _ _ (show-Runs _ w) (Runs-respond _ (inr (refl, w)))
                    (Runs-respond _ (inl same)))))
              (Runs-pure _ _
                (Runs-need _ _ _ _ (Runs-commit_broken _ (Runs-respond _ (inl same))))))

      deliver-Runs : (x : Tables) → Pending x → Runs t (seeing x) (deliver customer outlet) Answered
      deliver-Runs x (q, free) =
          attempt-Runs _ _ _ _ (λ e. send-Runs x (q, free))
            (λ n y e. send-Runs y (delivery-kept _ x n y e ∙ q, free)) send-broken

      pick_up-Runs : (x : Tables) → Pending x → Runs t (seeing x) (pick_up customer outlet) Answered
      pick_up-Runs x (q, free) =
          attempt-Runs _ _ _ _ (λ e. deliver-Runs x (q, free))
            (λ n y e. deliver-Runs y (pickup-kept _ x n y e ∙ q, free))
            (attempt-broken _ _ _ send-broken)

      placed :
          (x y z : Tables) (n m : ℕ)
          → insert_order new_row t ≡ applied n x
          → kept y ≡ kept x
          → insert_history (first_row fresh.order_id) y ≡ applied m z
          → Pending z
      unfolding new_row new_order
      placed x y z n m e q h =
          let (at_x, free) = order-inserted new_row t n x e in
          (
            history-kept _ y m z h
                ∙ ap (λ k. (k.0, first_row fresh.order_id ∷ k.1, k.2))
                    (q ∙ at_x ∙ ap (λ k. (k.0 ++ new_row ∷ [], k.1, k.2)) same),
            ap (λ k. find_key order_key fresh.order_id k.0) (sym same) ∙ free,
          )

    create_in_tx-Runs : Runs t idle (create_in_tx ops req fresh customer outlet) Answered
    unfolding create_in_tx done_or new_row
    create_in_tx-Runs = Runs-need _ _ _ _ (
        Runs-begin_tx _
          (prepare-Runs _ _ _ _ _ _ _
            (λ prepared.
              Runs-exec_tx _ _ _
                (λ n x e. Runs-pure _ _ (
                  item-Runs _ _ _ _ _
                    (λ y q.
                      attempt-Runs true _ _ _ (λ e. absurd (cc))
                        (λ m z h. pick_up-Runs prepared.1 z (placed prepared.1 x y z n m e q h))
                        pick_up-broken)
                    (inl same)))
                (λ e. Runs-respond_bind _ _ (inl same)) (Runs-respond_bind _ _ (inl same)))
            (inl same))
          (Runs-respond _ (inl same)))

  outlet-Runs :
      (t : Tables)
      → kept t ≡ kept t₀
      → (customer : String)
      → Runs t idle
          (resolve_outlet req >>= λ outlet. create_in_tx ops req fresh customer outlet)
          Answered
  unfolding resolve_outlet
  outlet-Runs t same customer = elim (Bool-cases (not (str_eq req.outlet_id ""))) [
    | inl e ↦ rw e (Runs-pure _ _ (create_in_tx-Runs t same customer _))
    | inr e ↦ rw e (
        Runs-assoc _ _ _ (
          Runs-query_pool _ _
            (λ o q.
              row_or-Runs (Fetch.row o) _ _ _ (λ a. create_in_tx-Runs t same customer a) (inl same)
                (inl same))
            (λ q.
              row_or-Runs Fetch.no_rows _ _ _ (λ a. create_in_tx-Runs t same customer a) (inl same)
                (inl same))
            (row_or-Runs Fetch.unreadable _ _ _ (λ a. create_in_tx-Runs t same customer a)
              (inl same) (inl same))))
  ]

  guest-Runs :
      (r : Fetch Customer) (f : String → M Tables Response Response)
      → ((t : Tables) → kept t ≡ kept t₀ → (id : String) → Runs t idle (f id) Answered)
      → Runs t₀ idle (existing_or_guest req fresh r >>= f) Answered
  unfolding existing_or_guest done_or
  guest-Runs (Fetch.row c) f h = Runs-pure _ _ (h t₀ refl c.id)
  guest-Runs Fetch.unreadable f h = Runs-respond_bind _ _ (inl refl)
  guest-Runs Fetch.no_rows f h = Runs-assoc _ _ _ (
      Runs-exec_pool _ _
        (λ n y e. (
          Runs-assoc _ _ _ (Runs-pure _ _ (Runs-pure _ _ (h y (customer-kept _ t₀ n y e) _))),
          Runs-assoc _ _ _ (Runs-respond_bind _ _ (inl (customer-kept _ t₀ n y e))),
        ))
        (λ e. Runs-assoc _ _ _ (Runs-respond_bind _ _ (inl refl)))
        (Runs-assoc _ _ _ (Runs-respond_bind _ _ (inl refl))))

  customer-Runs :
      (f : String → M Tables Response Response)
      → ((t : Tables) → kept t ≡ kept t₀ → (id : String) → Runs t idle (f id) Answered)
      → Runs t₀ idle (resolve_customer req fresh >>= f) Answered
  unfolding resolve_customer
  customer-Runs f h = elim (Bool-cases (not (str_eq req.customer_id ""))) [
    | inl e ↦ rw e (Runs-pure _ _ (h t₀ refl _))
    | inr e ↦ rw e (
        Runs-assoc _ _ _ (
          Runs-respond_if _ _ _ _ (λ q. inl refl)
            (λ q. Runs-assoc _ _ _ (
              Runs-query_pool _ _ (λ c w. guest-Runs (Fetch.row c) f h)
                (λ w. guest-Runs Fetch.no_rows f h) (guest-Runs Fetch.unreadable f h)))))
  ]

  -- Whatever the replies of the database, `create_order` answers; it answers 201 only after it has
  -- committed a new order under the given id, created and unpaid, together with its first entry of
  -- the audit trail and its event. An error leaves the orders, the audit trail and the outbox as
  -- they were, or is a 500 after all of that was committed.
  pub create_order-Runs : Runs t₀ idle (create_order ops req fresh) Answered
  unfolding create_order
  create_order-Runs =
      Runs-respond_if _ _ _ _ (λ e. inl refl)
        (λ a.
          Runs-respond_if _ _ _ _ (λ e. inl refl)
            (λ b.
              Runs-respond_if _ _ _ _ (λ e. inl refl)
                (λ c. customer-Runs _ (λ t same id. outlet-Runs t same id))))
