-- ===== src/Notification/Consumer/Effect.antt =====
-- What the handling of one event leaves: nothing, or one new notification of an event that had none,
-- with at most one message.
use laundry_platform.Base.{
  ℕ, String, ◌∷◌, Option, none, some, Bool, true, false, ◌||◌, ◌≡◌, refl, ◌⊎◌, inl, inr, arith,
  str_eq, if◌then◌else◌, ap, ◌∙◌,
}
use laundry_platform.Db.{Done, applied, ◌>>=◌, row_or, done_or, respond, exec_pool}
use laundry_platform.Db.Runs.{
  Runs, Runs-respond, Runs-pure, Runs-respond_bind, Runs-respond_if, Runs-if, idle,
}
use laundry_platform.Db.Calls.{Runs-query_pool, Runs-exec_pool}
use laundry_platform.Notification.Consumer.{
  Tables, Notification, Delivery, Sent, Message, order_created, order_weighed, order_ready,
  order_status_changed, payment_text, Payload, Envelope, CoreOrder, CoreCustomer, Core, Method,
  already_processed, insert_notification, returned_id, is_sent, send, record_delivery,
  store_and_send, with_customer, notify_customer, about_order, core_message, payment_message,
  handle_core_event, handle_payment_event,
}

-- One more notification of the event, and one more message of it or none.
pub record Notified (env : Envelope) (t t' : Tables) : Type 0 where
  pub fresh : already_processed env.event_id t ≡ false
  pub row : Notification
  pub about : row.source_event_id ≡ env.event_id
  pub stored : t'.notifications ≡ row ∷ t.notifications
  pub messages :
      (t'.sent ≡ t.sent)
      ⊎ ((m : Sent) × (m.source_event_id ≡ env.event_id) × (t'.sent ≡ m ∷ t.sent))

-- The rows that count stay as they are, or are those of a new notification.
abbrev pub Handled : Envelope → Tables → Bool → Tables → Type 0
Handled env t b t' = (t'.notifications ≡ t.notifications) × (t'.sent ≡ t.sent) ⊎ Notified env t t'

inserted :
    (n : Notification) (t : Tables) (k : ℕ) (y : Tables)
    → already_processed n.source_event_id t ≡ false
    → insert_notification n t ≡ applied k y
    → y ≡ record t { notifications = n ∷ t.notifications }
unfolding insert_notification
inserted n t k y fresh e = ground (arith, fresh, e)

logged_rows :
    (d : Delivery) (y : Tables) (n : ℕ) (z : Tables)
    → record_delivery d y ≡ applied n z
    → (z.notifications ≡ y.notifications) × (z.sent ≡ y.sent)
unfolding record_delivery
logged_rows d y n z e = ground arith

sent_rows :
    (m : Sent) (y : Tables) (n : ℕ) (z : Tables)
    → send m y ≡ applied n z
    → (z.notifications ≡ y.notifications) × (z.sent ≡ m ∷ y.sent)
unfolding send
sent_rows m y n z e = ground arith

module _ (env : Envelope) (t : Tables) where
  unchanged : (b : Bool) → Handled env t b t
  unchanged b = inl (refl, refl)

  log-Runs :
      (y : Tables) (d : Delivery)
      → Notified env t y
      → Runs {A = Bool} y idle
          (exec_pool (record_delivery d) >>= λ logged.
            done_or false false logged >>= λ _. respond true)
          (Handled env t)
  unfolding done_or
  log-Runs y d w =
      Runs-exec_pool _ _
        (λ n z e. (
          Runs-pure _ _ (Runs-respond _ (inr (after n z e))),
          Runs-respond_bind _ _ (inr (after n z e)),
        ))
        (λ e. Runs-respond_bind _ _ (inr w)) (Runs-respond_bind _ _ (inr w))
    where
      after : (n : ℕ) (z : Tables) → record_delivery d y ≡ applied n z → Notified env t z
      after n z e =
          let (rows, messages) = logged_rows d y n z e in
          record {
            fresh = w.fresh;
            row = w.row;
            about = w.about;
            stored = rows ∙ w.stored;
            messages = elim w.messages [
              | inl q ↦ inl (messages ∙ q)
              | inr (m, a, q) ↦ inr (m, a, messages ∙ q)
            ];
          }

  module _ (fresh : already_processed env.event_id t ≡ false) (row : Notification)
      (about : row.source_event_id ≡ env.event_id) where
    -- The notification is stored and its message was not sent yet.
    send-Runs :
        (y : Tables) (m : Sent)
        → m.source_event_id ≡ env.event_id
        → y ≡ record t { notifications = row ∷ t.notifications }
        → Runs {A = Bool} y idle
            (exec_pool (send m) >>= λ answered.
              exec_pool (
                record_delivery
                  (record { source_event_id = env.event_id; status = is_sent answered }))
              >>= λ logged. done_or false false logged >>= λ _. respond true)
            (Handled env t)
    send-Runs y m is same =
        Runs-exec_pool _ _ (λ n z e. (log-Runs z _ (after n z e), log-Runs z _ (after n z e)))
          (λ e. log-Runs y _ before) (log-Runs y _ before)
      where
        before : Notified env t y
        before = record {
          fresh = fresh;
          row = row;
          about = about;
          stored = ap (λ x. x.notifications) same;
          messages = inl (ap (λ x. x.sent) same);
        }

        after : (n : ℕ) (z : Tables) → send m y ≡ applied n z → Notified env t z
        after n z e =
            let (rows, messages) = sent_rows m y n z e in
            record {
              fresh = fresh;
              row = row;
              about = about;
              stored = rows ∙ ap (λ x. x.notifications) same;
              messages = inr (m, is, messages ∙ ap (λ x. m ∷ x.sent) same);
            }

    stored_only :
        (y : Tables) → y ≡ record t { notifications = row ∷ t.notifications } → Notified env t y
    stored_only y same = record {
      fresh = fresh;
      row = row;
      about = about;
      stored = ap (λ x. x.notifications) same;
      messages = inl (ap (λ x. x.sent) same);
    }

  store-Runs :
      already_processed env.event_id t ≡ false
      → (customer_id : String) (c : CoreCustomer) (m : Message)
      → Runs t idle (store_and_send env customer_id c m) (Handled env t)
  unfolding store_and_send returned_id
  store-Runs fresh customer_id c m =
      let row : Notification = record {
        type = env.event_type;
        recipient_customer_id = customer_id;
        source_event_id = env.event_id;
        message = m;
      } in
      Runs-exec_pool _ _
        (λ n y e.
          let same = inserted row t n y fresh e in
          (
            Runs-respond_if _ _ _ _ (λ q. inr (stored_only fresh row refl y same))
                (λ q. send-Runs fresh row refl y _ refl same),
            Runs-respond_if _ _ _ _ (λ q. inr (stored_only fresh row refl y same))
                (λ q. send-Runs fresh row refl y _ refl same),
          ))
        (λ e. Runs-respond_if _ _ _ _ (λ q. unchanged false) (λ q. absurd (duplicate_stops q)))
        (Runs-respond_if _ _ _ _ (λ q. unchanged false) (λ q. absurd (failure_stops q)))
    where
      duplicate_stops : (if returned_id Done.duplicate then false else true) ≡ false → ⊥
      duplicate_stops q = cc

      failure_stops : (if returned_id Done.failed then false else true) ≡ false → ⊥
      failure_stops q = cc

  customer-Runs :
      already_processed env.event_id t ≡ false
      → (id : String) (render : String → Message) (o : Option CoreCustomer)
      → Runs t idle (with_customer env id render o) (Handled env t)
  unfolding with_customer
  customer-Runs fresh id render none = Runs-respond _ (unchanged false)
  customer-Runs fresh id render (some c) =
      Runs-if _ (str_eq c.phone "") (respond true) _ (λ e. Runs-respond _ (unchanged true))
        (λ e. store-Runs fresh id c (render c.name))

  false_of :
      {b : Bool}
      → some (already_processed env.event_id t) ≡ some b
      → b ≡ false
      → already_processed env.event_id t ≡ false
  false_of {b} e q = let z : already_processed env.event_id t ≡ b = cc in z ∙ q

  module _ (core : Core) where
    notify-Runs :
        (id : String) (render : String → Message)
        → Runs t idle (notify_customer core env id render) (Handled env t)
    unfolding notify_customer row_or
    notify-Runs id render =
        Runs-query_pool _ _
          (λ b known. Runs-pure _ _ (
            Runs-respond_if _ _ _ _ (λ q. unchanged true)
              (λ q. customer-Runs (false_of known q) id render (core.customer id))))
          (λ e. Runs-respond_bind _ _ (unchanged false)) (Runs-respond_bind _ _ (unchanged false))

    order-Runs :
        (render : CoreOrder → String → Message) (o : Option CoreOrder)
        → Runs t idle (about_order core env render o) (Handled env t)
    unfolding about_order
    order-Runs render none = Runs-respond _ (unchanged false)
    order-Runs render (some o) = notify-Runs o.customer_id (render o)

    ignored : Runs t idle (respond {A = Bool} true) (Handled env t)
    ignored = Runs-respond _ (unchanged true)

    either :
        (b : Bool) {m n : Method}
        → Runs t idle m (Handled env t)
        → Runs t idle n (Handled env t)
        → Runs t idle (if b then m else n) (Handled env t)
    either true h k = h
    either false h k = k

    core-Runs : (p : Payload) → Runs t idle (core_message core env p) (Handled env t)
    unfolding core_message
    core-Runs p =
        either (str_eq env.event_type "order.created")
          (notify-Runs p.customer_id (λ name. order_created name p.order_code))
          (either (str_eq env.event_type "order.weighed")
            (order-Runs (λ o name. order_weighed name o.order_code p.total_amount)
              (core.order p.order_id))
            (either (str_eq env.event_type "order.status_changed")
              (either (str_eq p.to_status "READY")
                (order-Runs (λ o name. order_ready name o.order_code o.fulfillment_type)
                  (core.order p.order_id))
                ignored)
              (either (str_eq env.event_type "order.completed")
                (order-Runs (λ o name. order_status_changed name o.order_code "COMPLETED")
                  (core.order p.order_id))
                ignored)))

    payment-Runs : (p : Payload) → Runs t idle (payment_message core env p) (Handled env t)
    unfolding payment_message
    payment-Runs p =
        either
          (str_eq env.event_type "payment.paid"
            || str_eq env.event_type "payment.failed"
            || str_eq env.event_type "payment.refunded")
          (order-Runs (payment_text env.event_type p) (core.order p.order_id)) ignored

    -- An event of either queue.
    pub handle_event-Runs :
        Runs t idle (handle_core_event core env) (Handled env t)
        × Runs t idle (handle_payment_event core env) (Handled env t)
    unfolding handle_core_event handle_payment_event
    handle_event-Runs = (go_core env.payload, go_payment env.payload)
      where
        go_core :
            (o : Option Payload)
            → Runs t idle
                (elim o as (λ x. Method) [ none ↦ respond true | some p ↦ core_message core env p ])
                (Handled env t)
        go_core none = ignored
        go_core (some p) = core-Runs p

        go_payment :
            (o : Option Payload)
            → Runs t idle
                (elim o as (λ x. Method) [
                  | none ↦ respond true
                  | some p ↦ payment_message core env p
                ])
                (Handled env t)
        go_payment none = ignored
        go_payment (some p) = payment-Runs p
