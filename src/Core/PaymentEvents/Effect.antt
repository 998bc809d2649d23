-- ===== src/Core/PaymentEvents/Effect.antt =====
-- What a payment event commits: all of its reaction together with its mark, or nothing.
use laundry_platform.Base.{
  ℕ, String, List, [], ◌∷◌, none, some, Bool, true, false, not, ◌≡◌, refl, ◌⊎◌, inl, inr, find_key,
  if◌then◌else◌,
}
use laundry_platform.Db.{Done, done, exec_tx, M, ◌>>=◌, applied, row_or, done_or, pure}
use laundry_platform.Db.Runs.{
  Runs, Runs-respond, Runs-pure, Runs-need, Runs-respond_bind, Runs-respond_if, idle, seeing,
  broken,
}
use laundry_platform.Db.Calls.{Runs-begin_tx, Runs-query_tx, Runs-write, Runs-commit}
use laundry_platform.Core.OrderState.{weighing, washing, cancelled, status_eq}
use laundry_platform.Core.Tables.{
  Tables, Order, PaymentStatus, unpaid, pending, paid, failed, refunded, order_key,
}
use laundry_platform.Core.Transition.Effect.{moved}
use laundry_platform.Core.Transition.Rule.{Runs-transition_if}
use laundry_platform.Core.PaymentEvents.{
  Envelope, set_payment_if, set_payment, mark, mark_and_commit, project_payment_status_if,
  handle_payment_paid, handle_payment_refunded, is_paid,
}

-- `UPDATE` to paid, and the transition of an order that is being weighed.
unfoldable pub paid_effect : String → Order → Tables → Tables
paid_effect id o t =
    let u = set_payment id paid t in
    if status_eq o.status weighing then moved id weighing washing "" none false u else u

-- The refund of an order that is paid, and its cancellation where it is not cancelled.
unfoldable pub refunded_effect : String → Order → Tables → Tables
refunded_effect id o t =
    let u = if is_paid o.payment_status then set_payment id refunded t else t in
    if not (status_eq o.status cancelled)
    then moved id o.status cancelled "" (some "Refunded") false u
    else u

-- The four reactions to an event for the order `id`.
pub data Reacts (env : Envelope) (id : String) (t : Tables) : Tables → Type 0 where
  on_created :
      env.event_type ≡ "payment.created"
      → Reacts env id t (set_payment_if id pending (unpaid ∷ []) t)
  on_failed :
      env.event_type ≡ "payment.failed"
      → Reacts env id t (set_payment_if id failed (unpaid ∷ pending ∷ []) t)
  on_paid :
      (o : Order)
      → env.event_type ≡ "payment.paid"
      → find_key order_key id (set_payment id paid t).orders ≡ some o
      → Reacts env id t (paid_effect id o t)
  on_refunded :
      (o : Order)
      → env.event_type ≡ "payment.refunded"
      → find_key order_key id t.orders ≡ some o
      → Reacts env id t (refunded_effect id o t)

-- A method that returns an error may have lost only the answer to its commit.
abbrev pub Reacted : Envelope → String → Tables → Bool → Tables → Type 0
Reacted env id t b t' =
    (b ≡ false) × (t' ≡ t) ⊎ ((u : Tables) × Reacts env id t u × (t' ≡ mark env.event_id u))

module _ (env : Envelope) (id : String) (t : Tables) where
  finishes :
      (x : Tables)
      → Reacts env id t x
      → Runs t (seeing x) (mark_and_commit env.event_id) (Reacted env id t)
  unfolding mark_and_commit done_or
  finishes x h =
      Runs-write _ _ _ _
        (Runs-pure _ _ (
          Runs-need _ _ _ _ (
            Runs-commit _ _ (Runs-respond _ (inr (x, h, refl))) (Runs-respond _ (inr (x, h, refl)))
              (Runs-respond _ (inl (refl, refl))))))
        (Runs-respond_bind _ _ (inl (refl, refl)))

  pub project-Runs :
      (status : PaymentStatus) (froms : List PaymentStatus)
      → Reacts env id t (set_payment_if id status froms t)
      → Runs t idle (project_payment_status_if env status froms id) (Reacted env id t)
  unfolding project_payment_status_if done_or
  project-Runs status froms h = Runs-need _ _ _ _ (
      Runs-begin_tx _
        (Runs-write _ _ _ _ (Runs-pure _ _ (finishes _ h))
          (Runs-respond_bind _ _ (inl (refl, refl))))
        (Runs-respond _ (inl (refl, refl))))

  pub paid-Runs :
      env.event_type ≡ "payment.paid" → Runs t idle (handle_payment_paid env id) (Reacted env id t)
  unfolding handle_payment_paid done_or row_or paid_effect
  paid-Runs e = Runs-need _ _ _ _ (
      Runs-begin_tx _
        (Runs-write _ _ _ _
          (Runs-pure _ _ (
            Runs-query_tx _ _ _
              (λ o found. Runs-pure _ _ (
                Runs-transition_if _ _ _ _ _ _ _ _ _
                  (Runs-respond_if _ _ _ _ (λ q. inl (refl, refl))
                    (λ q. finishes _ (on_paid o e found)))
                  (Runs-respond_if _ _ _ _ (λ q. inl (refl, refl)) (λ q. absurd (cc)))))
              (λ q. Runs-respond_bind _ _ (inl (refl, refl)))
              (Runs-respond_bind _ _ (inl (refl, refl)))))
          (Runs-respond_bind _ _ (inl (refl, refl))))
        (Runs-respond _ (inl (refl, refl))))

  -- The conditional `UPDATE ... SET payment_status = 'REFUNDED'`.
  refund_if :
      (b : Bool) (f : Done → M Tables Bool Bool)
      → ((n : ℕ)
          → Runs t
              (seeing (if b then set_payment id refunded t else t))
              (f (done n))
              (Reacted env id t))
      → Runs t broken (f Done.failed) (Reacted env id t)
      → Runs t
          (seeing t)
          ((if b then exec_tx (λ x. applied 1 (set_payment id refunded x)) else pure (done 0))
            >>= f)
          (Reacted env id t)
  refund_if true f good bad = Runs-write _ _ _ _ (good 1) bad
  refund_if false f good bad = Runs-pure _ _ (good 0)

  pub refunded-Runs :
      env.event_type ≡ "payment.refunded"
      → Runs t idle (handle_payment_refunded env id) (Reacted env id t)
  unfolding handle_payment_refunded done_or row_or refunded_effect
  refunded-Runs e = Runs-need _ _ _ _ (
      Runs-begin_tx _
        (Runs-query_tx _ _ _
          (λ o found. Runs-pure _ _ (
            refund_if _ _
              (λ n. Runs-pure _ _ (
                Runs-transition_if _ _ _ _ _ _ _ _ _
                  (Runs-respond_if _ _ _ _ (λ q. inl (refl, refl))
                    (λ q. finishes _ (on_refunded o e found)))
                  (Runs-respond_if _ _ _ _ (λ q. inl (refl, refl)) (λ q. absurd (cc)))))
              (Runs-respond_bind _ _ (inl (refl, refl)))))
          (λ q. Runs-respond_bind _ _ (inl (refl, refl)))
          (Runs-respond_bind _ _ (inl (refl, refl))))
        (Runs-respond _ (inl (refl, refl))))
