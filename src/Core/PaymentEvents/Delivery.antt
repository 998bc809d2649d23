-- ===== src/Core/PaymentEvents/Delivery.antt =====
-- A whole delivery: the check for repeats, the reaction, and the verdict.
use laundry_platform.Base.{
  String, Option, none, some, Bool, true, false, ◌≡◌, refl, ◌∙◌, ◌⊎◌, inl, inr, if◌then◌else◌,
  str_eq, eq_iff, arith,
}
use laundry_platform.Db.{row_or, respond}
use laundry_platform.Db.Runs.{
  Runs, Runs-respond, Runs-pure, Runs-respond_bind, Runs-respond_if, Runs-if, Runs-returned,
  Runs-weaken, idle,
}
use laundry_platform.Db.Calls.{Runs-query_pool}
use laundry_platform.Core.Tables.{Tables}
use laundry_platform.Core.PaymentEvents.{
  Envelope, Verdict, ack, requeue, Method, extract_order_id, processed, mark, with_order_id,
  dispatch, handle_envelope,
}
use laundry_platform.Core.PaymentEvents.Effect.{
  Reacts, Reacted, on_created, on_paid, on_failed, on_refunded, project-Runs, paid-Runs,
  refunded-Runs,
}

-- What a delivery of an event ends in: nothing, a reaction with its mark, or nothing with an
-- acknowledgement of an event that asks for none.
pub data Handled (env : Envelope) (t : Tables) : Verdict → Tables → Type 0 where
  put_back : Handled env t requeue t
  seen_before : processed env.event_id t ≡ true → Handled env t ack t
  reacted :
      (v : Verdict) (id : String) (u : Tables)
      → processed env.event_id t ≡ false
      → extract_order_id env ≡ some id
      → Reacts env id t u
      → Handled env t v (mark env.event_id u)
  nothing_to_do :
      ((id : String) (u : Tables) → extract_order_id env ≡ some id → Reacts env id t u → ⊥)
      → Handled env t ack t

-- No reaction is asked for: the event is of another kind, or names no order.
abbrev Idle : Envelope → Type 0
Idle env = (id : String) (t u : Tables) → extract_order_id env ≡ some id → Reacts env id t u → ⊥

Dispatched : Envelope → Tables → Bool → Tables → Type 0
Dispatched env t b t' =
    (b ≡ false) × (t' ≡ t)
    ⊎ ((id : String) × (u : Tables) × (extract_order_id env ≡ some id)
        × Reacts env id t u
        × (t' ≡ mark env.event_id u))
    ⊎ (b ≡ true) × (t' ≡ t) × Idle env

other_type :
    (env : Envelope) (id : String) (t u : Tables)
    → str_eq env.event_type "payment.created" ≡ false
    → str_eq env.event_type "payment.paid" ≡ false
    → str_eq env.event_type "payment.failed" ≡ false
    → str_eq env.event_type "payment.refunded" ≡ false
    → Reacts env id t u
    → ⊥
other_type env id t u a b c d (on_created e) =
    ground (arith, eq_iff env.event_type "payment.created")
other_type env id t u a b c d (on_failed e) = ground (arith, eq_iff env.event_type "payment.failed")
other_type env id t u a b c d (on_paid o e f) = ground (arith, eq_iff env.event_type "payment.paid")
other_type env id t u a b c d (on_refunded o e f) =
    ground (arith, eq_iff env.event_type "payment.refunded")

module _ (env : Envelope) (t : Tables) where
  with_order_id-Runs :
      (f : String → Method)
      → ((id : String) → Runs t idle (f id) (Reacted env id t))
      → Runs t idle (with_order_id env f) (Dispatched env t)
  unfolding with_order_id Dispatched
  with_order_id-Runs f h = go (extract_order_id env) refl
    where
      reacted_to :
          (id : String)
          → extract_order_id env ≡ some id
          → (b : Bool) (t' : Tables) → Reacted env id t b t'
          → Dispatched env t b t'
      reacted_to id e b t' (inl q) = inl q
      reacted_to id e b t' (inr (u, r, q)) = inr (inl (id, u, e, r, q))

      go :
          (o : Option String)
          → extract_order_id env ≡ o
          → Runs t idle
              (elim o as (λ k. Method) [ none ↦ respond true | some id ↦ f id ])
              (Dispatched env t)
      go none e = Runs-respond _ (inr (inr (refl, refl, λ id x u q r. absurd (cc))))
      go (some id) e = Runs-weaken (h id) (reacted_to id e)

  dispatch-Runs : Runs t idle (dispatch env) (Dispatched env t)
  unfolding dispatch Dispatched
  dispatch-Runs =
      Runs-if _ _ _ _
        (λ a.
          with_order_id-Runs _ (λ id. project-Runs env id t _ _ (on_created ((eq_iff _ _).0 a))))
        (λ a.
          Runs-if _ _ _ _ (λ b. with_order_id-Runs _ (λ id. paid-Runs env id t ((eq_iff _ _).0 b)))
            (λ b.
              Runs-if _ _ _ _
                (λ c.
                  with_order_id-Runs _
                    (λ id. project-Runs env id t _ _ (on_failed ((eq_iff _ _).0 c))))
                (λ c.
                  Runs-if _ _ _ _
                    (λ d. with_order_id-Runs _ (λ id. refunded-Runs env id t ((eq_iff _ _).0 d)))
                    (λ d.
                      Runs-respond _
                        (inr (inr (refl, refl, λ id x u q r. other_type env id x u a b c d r)))))))

  verdict :
      processed env.event_id t ≡ false
      → (b : Bool) (t' : Tables) → Dispatched env t b t'
      → Handled env t (if b then ack else requeue) t'
  unfolding Dispatched
  verdict fresh true t' (inl (q, e)) = absurd (cc)
  verdict fresh false t' (inl (q, e)) = rw e put_back
  verdict fresh true t' (inr (inl (id, u, x, r, e))) = rw e (reacted ack id u fresh x r)
  verdict fresh false t' (inr (inl (id, u, x, r, e))) = rw e (reacted requeue id u fresh x r)
  verdict fresh true t' (inr (inr (q, e, none_due))) =
      rw e (nothing_to_do (λ id u. none_due id t u))
  verdict fresh false t' (inr (inr (q, e, none_due))) = absurd (cc)

  -- Whatever the replies of the database, a delivery ends in one of four ways: put back with
  -- nothing changed; acknowledged with nothing changed as seen before; the reaction of the event's
  -- type to an order it names, committed together with the event's mark; or acknowledged with
  -- nothing changed where no reaction is asked for.
  pub handle_envelope-Runs : Runs t idle (handle_envelope env) (Handled env t)
  unfolding handle_envelope row_or
  handle_envelope-Runs =
      Runs-query_pool _ _
        (λ known e.
          let same : processed env.event_id t ≡ known = cc in
          Runs-pure _ _ (
            Runs-respond_if _ _ _ _ (λ q. seen_before (same ∙ q))
              (λ q.
                Runs-returned _ _ dispatch-Runs
                  (λ b t' d. Runs-respond _ (verdict (same ∙ q) b t' d)))))
        (λ e. Runs-respond_bind _ _ put_back) (Runs-respond_bind _ _ put_back)
