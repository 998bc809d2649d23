-- ===== src/Platform/PaymentSide/Requests.antt =====
-- Each request to Payment keeps every announcement backed by a payment.
use laundry_platform.Base.{
  ℕ, String, [], ◌∷◌, ◌++◌, Option, some, Bool, true, false, ◌≡◌, ◌≢◌, refl, sym, ap, ◌∙◌, subst,
  inl, inr, arith, find_key, update_key, str_eq, eq_iff, if◌then◌else◌,
}
use laundry_platform.Base.Int.{ℤ}
use laundry_platform.Db.{applied, Reply, start, row_or, done_or}
use laundry_platform.Db.Runs.{
  Runs, Runs-Keeps, Runs-respond_bind, Runs-respond, Runs-respond_if, Runs-pure, idle,
}
use laundry_platform.Db.Calls.{Runs-exec_pool, Runs-query_pool}
use laundry_platform.Shared.HttpAuth.{Principal}
use laundry_platform.Payment.Tables.{
  Tables, Payment, Refund, Status, pending, Response, error, json, payment_key, announce,
  log_transaction, is_paid,
}
use laundry_platform.Payment.Create.{CreateRequest, Outside, CoreOrder, payment_event, charge_log}
use laundry_platform.Payment.Create.Effect as CreateEffect
use laundry_platform.Payment.Create.Effect.{announce_if, create_payment-Runs}
use laundry_platform.Payment.Simulate.{Outcome, settled, status_of, settle_event, settle_log}
use laundry_platform.Payment.Simulate.Effect as SimulateEffect
use laundry_platform.Payment.Simulate.Effect.{simulate_gateway_callback-Runs}
use laundry_platform.Payment.Refunds.{
  reject_refund, reject_rows, show_refund, refund_payment, complete_refund, amount_or, refund_log,
  refunded_event,
}
use laundry_platform.Payment.Refunds.Effect as ApproveEffect
use laundry_platform.Payment.Refunds.Effect.{approve_refund-Runs}
use laundry_platform.Payment.Refunds.Request as RequestEffect
use laundry_platform.Payment.Refunds.Request.{create_refund-Runs}
use laundry_platform.Platform.{
  PaymentRequest, charge, callback, ask_refund, approve, reject, serve_payment,
}
use laundry_platform.Platform.PaymentSide.{
  is_settled, settles, has_settled, Backed, Grows, Grows-append, has_settled-append, Grows-update,
  has_settled-update, Backed-grow, Backed-announce,
}

other_type : (a : String) → str_eq a "payment.paid" ≡ false → a ≢ "payment.paid"
other_type a e q = let z = (eq_iff a "payment.paid").1 q in cc

settled_of : (s : Status) → is_paid s ≡ true → is_settled s ≡ true
settled_of s h = ground arith

module _ (K : String → Type 0) (t : Tables) (backed : Backed K t) where
  charged-Backed :
      (p : Payment)
      → Backed K (
          announce_if (is_paid p.status) (payment_event "payment.paid" p) (
            announce
              (payment_event "payment.created" p)
              (log_transaction (charge_log p) (record t { payments = t.payments ++ p ∷ [] }))))
  charged-Backed p = go (is_paid p.status) refl
    where
      logged : Tables
      logged = log_transaction (charge_log p) (record t { payments = t.payments ++ p ∷ [] })

      u : Tables
      u = announce (payment_event "payment.created" p) logged

      u-Backed : Backed K u
      u-Backed =
          Backed-announce K (payment_event "payment.created" p) logged
            (λ e. absurd (other_type "payment.created" refl e))
            (Backed-grow K t logged refl (Grows-append t.payments p) backed)

      go :
          (b : Bool)
          → is_paid p.status ≡ b
          → Backed K (announce_if b (payment_event "payment.paid" p) u)
      go false e = u-Backed
      go true e =
          Backed-announce K (payment_event "payment.paid" p) u
            (λ q. has_settled-append t.payments p (settled_of p.status e)) u-Backed

  Charged-Backed :
      (req : CreateRequest) (out : Outside) (r : Response) (t' : Tables)
      → CreateEffect.Answered req out t r t'
      → Backed K t'
  Charged-Backed req out (error n c) t' (inl same) = subst (Backed K) (sym same) backed
  Charged-Backed req out (error n c) t' (inr (e, w)) =
      subst (Backed K) (sym w.committed) (charged-Backed w.payment)
  Charged-Backed req out (json n b) t' (e, w) =
      subst (Backed K) (sym w.committed) (charged-Backed w.payment)

  settled-Backed :
      (id : String) (p : Payment) (o : Outcome) (now : ℕ)
      → find_key payment_key id t.payments ≡ some p
      → p.status ≡ pending
      → Backed K (
          announce (settle_event id p o) (
            log_transaction
              (settle_log id p o)
              (record t { payments = update_key payment_key id (settled o now) t.payments })))
  settled-Backed id p o now found waits =
      Backed-announce K (settle_event id p o) u covered
        (Backed-grow K t u refl (Grows-update id (settled o now) t.payments not_settled) backed)
    where
      u : Tables
      u =
          log_transaction (settle_log id p o)
            (record t { payments = update_key payment_key id (settled o now) t.payments })

      not_settled :
          (x : Payment) (order : String)
          → find_key payment_key id t.payments ≡ some x
          → settles order x ≡ true
          → settles order (settled o now x) ≡ true
      not_settled x order q h =
          let z : p ≡ x = cc in
          let s : x.status ≡ pending = ap (λ y. y.status) (sym z) ∙ waits in
          absurd (ground (arith, s, h))

      covered :
          (settle_event id p o).event_type ≡ "payment.paid"
          → has_settled p.order_id u.payments ≡ true
      covered q = go (is_paid (status_of o)) refl q
        where
          go :
              (b : Bool)
              → is_paid (status_of o) ≡ b
              → ◌≡◌ {A = String} (if b then "payment.paid" else "payment.failed") "payment.paid"
              → has_settled p.order_id u.payments ≡ true
          go true e w =
              has_settled-update id (settled o now) t.payments p found refl
                (settled_of (status_of o) e)
          go false e w = absurd (other_type "payment.failed" refl w)

  Settled-Backed :
      (provider id : String) (o : Outcome) (now : ℕ) (r : Response) (t' : Tables)
      → SimulateEffect.Answered provider id o now t r t'
      → Backed K t'
  Settled-Backed provider id o now (error n c) t' (inl same) = subst (Backed K) (sym same) backed
  Settled-Backed provider id o now (error n c) t' (inr (e, w)) =
      subst (Backed K) (sym w.committed)
        (settled-Backed id w.payment o now w.row_found w.was_pending)
  Settled-Backed provider id o now (json n b) t' (e, w) =
      subst (Backed K) (sym w.committed)
        (settled-Backed id w.payment o now w.row_found w.was_pending)

  approved-Backed :
      (id : String) (amount : Option ℤ) (now : ℕ) (p : Principal) (w : Refund)
      → Backed K (ApproveEffect.approval id amount now p t w)
  unfolding refund_payment complete_refund
  approved-Backed id amount now p w =
      Backed-announce K (refunded_event w (amount_or amount w.amount)) u
        (λ e. absurd (other_type "payment.refunded" refl e))
        (Backed-grow K t u refl
          (Grows-update w.payment_id (λ x. record x { status = Status.refunded }) t.payments
            (λ x o found h. ground (arith, h)))
          backed)
    where
      u : Tables
      u =
          log_transaction (refund_log w.payment_id (amount_or amount w.amount)) (
            refund_payment w.payment_id (complete_refund id (amount_or amount w.amount) p.id now t))

  Approved-Backed :
      (id : String) (amount : Option ℤ) (now : ℕ) (p : Principal) (r : Response) (t' : Tables)
      → ApproveEffect.Answered id amount now p t r t'
      → Backed K t'
  Approved-Backed id amount now p (error n c) t' (inl same) = subst (Backed K) (sym same) backed
  Approved-Backed id amount now p (error n c) t' (inr (e, w)) =
      subst (Backed K) (sym w.committed) (approved-Backed id amount now p w.refund)
  Approved-Backed id amount now p (json n b) t' (e, w) =
      subst (Backed K) (sym w.committed) (approved-Backed id amount now p w.refund)

  Requested-Backed :
      (payment reason : String) (order : Option CoreOrder) (id code : String) (p : Principal)
      (r : Response) (t' : Tables)
      → RequestEffect.Answered payment reason order id code p t r t'
      → Backed K t'
  Requested-Backed payment reason order id code p (error n c) t' (inl same) =
      subst (Backed K) (sym same) backed
  Requested-Backed payment reason order id code p (error n c) t' (inr (e, w)) =
      subst (Backed K) (sym w.committed) backed
  Requested-Backed payment reason order id code p (json n b) t' (e, w) =
      subst (Backed K) (sym w.committed) backed

  reject-kept :
      (id reason : String) (n : ℕ) (u : Tables)
      → reject_rows id reason t ≡ applied n u
      → (u.payments ≡ t.payments) × (u.outbox_events ≡ t.outbox_events)
  unfolding reject_rows
  reject-kept id reason n u e = ground arith

  reject-Backed :
      (u : Tables) → (u.payments ≡ t.payments) × (u.outbox_events ≡ t.outbox_events) → Backed K u
  reject-Backed u (same, events) =
      Backed-grow K t u events (subst (λ ps. Grows t.payments ps) (sym same) (λ o h. h)) backed

  shown-Backed :
      (u : Tables) (n : ℕ) (id : String)
      → Backed K u
      → Runs u idle (show_refund n id) (λ r x. Backed K x)
  unfolding show_refund row_or
  shown-Backed u n id h =
      Runs-query_pool _ _ (λ r e. Runs-pure _ _ (Runs-respond _ h)) (λ e. Runs-respond_bind _ _ h)
        (Runs-respond_bind _ _ h)

  rejected-Runs : (id reason : String) → Runs t idle (reject_refund id reason) (λ r x. Backed K x)
  unfolding reject_refund done_or
  rejected-Runs id reason =
      Runs-respond_if _ _ _ _ (λ e. backed)
        (λ given.
          Runs-exec_pool _ _
            (λ n u e.
              let h = reject-Backed u (reject-kept id reason n u e) in
              (
                Runs-pure _ _ (Runs-respond_if _ _ _ _ (λ q. h) (λ q. shown-Backed u 200 id h)),
                Runs-respond_bind _ _ h,
              ))
            (λ e. Runs-respond_bind _ _ backed) (Runs-respond_bind _ _ backed))

  -- A request to Payment.
  pub serve_payment-Backed :
      (r : PaymentRequest) (net : ℕ → Reply) → Backed K (serve_payment r (start net t)).1.tables
  unfolding serve_payment
  serve_payment-Backed (charge req out) net =
      Runs-Keeps (Backed K) (create_payment-Runs req out t) (Charged-Backed req out) net
  serve_payment-Backed (callback provider id o now) net =
      Runs-Keeps (Backed K) (simulate_gateway_callback-Runs provider id o now t)
        (Settled-Backed provider id o now) net
  serve_payment-Backed (ask_refund payment reason order id code p) net =
      Runs-Keeps (Backed K) (create_refund-Runs payment reason order id code p t)
        (Requested-Backed payment reason order id code p) net
  serve_payment-Backed (approve id amount now p) net =
      Runs-Keeps (Backed K) (approve_refund-Runs id amount now p t)
        (Approved-Backed id amount now p) net
  serve_payment-Backed (reject id reason) net =
      Runs-Keeps (Backed K) (rejected-Runs id reason) (λ r u h. h) net
