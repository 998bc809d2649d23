-- ===== src/Payment/Simulate/Effect.antt =====
-- `simulate_gateway_callback` on every branch.
use laundry_platform.Base.{
  ℕ, String, some, Bool, true, false, not, ◌≡◌, refl, ◌⊎◌, inl, inr, arith, find_key, update_key,
  str_eq, exists, ◌&&◌, ap,
}
use laundry_platform.Db.{applied, ◌>>=◌, need, row_or, done_or, commit, respond}
use laundry_platform.Db.Runs.{
  Runs, Runs-respond, Runs-pure, Runs-need, Runs-respond_bind, Runs-respond_if, idle, seeing,
}
use laundry_platform.Db.Calls.{
  Runs-query_pool, Runs-begin_tx, Runs-exec_tx, Runs-write, Runs-commit, Runs-commit_broken,
}
use laundry_platform.Payment.Tables.{
  Tables, Payment, Status, pending, Response, error, json, internal_error, payment_key, is_pending,
  is_paid, payment_body, log_transaction, announce,
}
use laundry_platform.Payment.Outbox.{Runs-write_outbox_event}
use laundry_platform.Payment.Simulate.{
  Outcome, is_invalid, status_of, settle, settle_log, settle_event, settled,
  simulate_gateway_callback,
}

pending_of : (s : Status) → not (is_pending s) ≡ false → s ≡ pending
pending_of s h = ground arith

true_of : (b : Bool) → not b ≡ false → b ≡ true
true_of b h = ground arith

-- Another row of the order is paid.
abbrev pub paid_elsewhere : String → String → Tables → Bool
paid_elsewhere id order_id t =
    exists (λ (x : Payment). str_eq x.order_id order_id && is_paid x.status && not (str_eq x.id id))
      t.payments

with_logs : String → Payment → Outcome → Tables → Tables
with_logs id p o u = announce (settle_event id p o) (log_transaction (settle_log id p o) u)

settled_row :
    (id : String) (p : Payment) (o : Outcome) (now : ℕ) (t : Tables) (n : ℕ) (u : Tables)
    → settle id p o now t ≡ applied n u
    → (u ≡ record t { payments = update_key payment_key id (settled o now) t.payments })
      × (is_paid (status_of o) ≡ true → paid_elsewhere id p.order_id t ≡ false)
unfolding settle
settled_row id p o now t n u e = ground arith

module _ (provider_name id : String) (outcome : Outcome) (now : ℕ) (t : Tables) where
  pub record Settled (t' : Tables) : Type 0 where
    pub payment : Payment
    pub row_found : find_key payment_key id t.payments ≡ some payment
    pub was_pending : payment.status ≡ pending
    pub dummy_gateway : str_eq provider_name "DUMMY" ≡ true
    pub dummy_payment : str_eq payment.provider "DUMMY" ≡ true
    pub known_outcome : is_invalid outcome ≡ false
    pub first_paid :
        is_paid (status_of outcome) ≡ true → paid_elsewhere id payment.order_id t ≡ false
    pub committed :
        t'
        ≡ announce (settle_event id payment outcome) (
            log_transaction
              (settle_log id payment outcome)
              (record t { payments = update_key payment_key id (settled outcome now) t.payments }))

  abbrev pub Answered : Response → Tables → Type 0
  Answered (error n c) t' = (t' ≡ t) ⊎ (n ≡ 500) × Settled t'
  Answered (json n b) t' = (n ≡ 200) × Settled t'

  -- Whatever the replies of the database, `simulate_gateway_callback` answers; it answers 200 only
  -- for a pending payment of the dummy provider, with that provider configured, a known outcome,
  -- and no other paid row of the order if the payment becomes paid. It has then committed the
  -- payment's status, the entry of the log and the outcome's event together. An error leaves the
  -- tables as they were, or is a 500 after all of that was committed.
  pub simulate_gateway_callback-Runs :
      Runs t idle (simulate_gateway_callback provider_name id outcome now) Answered
  unfolding simulate_gateway_callback row_or done_or with_logs
  simulate_gateway_callback-Runs =
      Runs-respond_if _ _ _ _ (λ e. inl refl)
        (λ dummy.
          Runs-respond_if _ _ _ _ (λ e. inl refl)
            (λ known.
              Runs-query_pool _ _
                (λ x found. Runs-pure _ _ (
                  Runs-respond_if _ _ _ _ (λ e. inl refl)
                    (λ ours.
                      Runs-respond_if _ _ _ _ (λ e. inl refl)
                        (λ still. Runs-need _ _ _ _ (
                          Runs-begin_tx _
                            (Runs-exec_tx _ _ _
                              (λ n y e. Runs-pure _ _ (
                                Runs-write _ _ _ _
                                  (Runs-pure _ _ (
                                    Runs-write_outbox_event _ _ _
                                      (ends x (record {
                                        payment = x;
                                        row_found = found;
                                        was_pending = pending_of x.status still;
                                        dummy_gateway = true_of _ dummy;
                                        dummy_payment = true_of _ ours;
                                        known_outcome = known;
                                        first_paid = (settled_row id x outcome now t n y e).1;
                                        committed =
                                            ap (with_logs id x outcome)
                                              (settled_row id x outcome now t n y e).0;
                                      }))
                                      (Runs-need _ _ _ _
                                        (Runs-commit_broken _ (Runs-respond _ (inl refl))))))
                                  (Runs-respond_bind _ _ (inl refl))))
                              (λ e. Runs-respond_bind _ _ (inl refl))
                              (Runs-respond_bind _ _ (inl refl)))
                            (Runs-respond _ (inl refl)))))))
                (λ e. Runs-respond_bind _ _ (inl refl)) (Runs-respond_bind _ _ (inl refl))))
    where
      ends :
          {x : Tables} (y : Payment)
          → Settled x
          → Runs {A = Response} t
              (seeing x)
              (need internal_error commit >>= λ _.
                respond (json 200 (payment_body (settled outcome now y))))
              Answered
      ends y w = Runs-need _ _ _ _ (
          Runs-commit _ _ (Runs-respond _ (refl, w)) (Runs-respond _ (inr (refl, w)))
            (Runs-respond _ (inl refl)))
