-- ===== src/Reporting/Events/Delivery.antt =====
-- A whole delivery to Reporting (services/reporting/internal/handler/events.go): the check for
-- repeats, the projection, and the verdict.
pub mod Ledger
pub mod Books
pub mod Outcome
use laundry_platform.Base.{
  ℕ, String, Option, none, some, Bool, true, false, ◌≡◌, ◌≢◌, refl, ◌⊎◌, inl, inr, ap, eq_refl,
  Bool-cases, str_eq, arith, if◌then◌else◌,
}
use laundry_platform.Db.{Reply, start, exit, row_or, respond}
use laundry_platform.Db.Runs.{
  Runs, Runs-respond, Runs-pure, Runs-respond_bind, Runs-respond_if, Runs-if, Runs-returned,
  Runs-answer, idle, Runs-Keeps,
}
use laundry_platform.Db.Calls.{Runs-query_pool}
use laundry_platform.Reporting.Tables.{Tables, processed, mark}
use laundry_platform.Reporting.Events.{
  Envelope, Payload, Method, Verdict, ack, requeue, verdict_of, handle_envelope, decoded, is_change,
  dispatch_core, dispatch_payment,
}
use laundry_platform.Reporting.Events.Effect.{
  Consumer, core, payments, Kind, created, weighed, changed, refunded, other, kind, dispatch, Sale,
  Reacts, Projected, mark_only-Runs, created-Runs, weighed-Runs, changed-Runs, refund-Runs,
}

-- What a delivery ends in.
pub data Handled (c : Consumer) (env : Envelope) (t : Tables) : Verdict → Tables → Type 0 where
  put_back : Handled c env t requeue t
  seen_before : processed env.event_id t ≡ true → Handled c env t ack t
  reacted :
      (v : Verdict) (o : Option Sale) (u : Tables)
      → processed env.event_id t ≡ false
      → Reacts c env t o u
      → Handled c env t v (mark env.event_id u)

kind-created : (name : String) → str_eq name "order.created" ≡ true → kind core name ≡ created
unfolding kind
kind-created name e = rw e refl

kind-weighed :
    (name : String)
    → str_eq name "order.created" ≡ false
    → str_eq name "order.weighed" ≡ true
    → kind core name ≡ weighed
unfolding kind
kind-weighed name a b = rw (a, b) refl

kind-changed :
    (name : String)
    → str_eq name "order.created" ≡ false
    → str_eq name "order.weighed" ≡ false
    → is_change name ≡ true
    → kind core name ≡ changed
unfolding kind
kind-changed name a b d = rw (a, b, d) refl

kind-other :
    (name : String)
    → str_eq name "order.created" ≡ false
    → str_eq name "order.weighed" ≡ false
    → is_change name ≡ false
    → kind core name ≡ other
unfolding kind
kind-other name a b d = rw (a, b, d) refl

kind-refunded :
    (name : String) (b : Bool)
    → str_eq name "payment.refunded" ≡ b
    → kind payments name ≡ (if b then refunded else other)
unfolding kind
kind-refunded name b e = rw e refl

module _ (env : Envelope) (t : Tables) where
  decoded-Runs :
      (c : Consumer) (f : Payload → Method)
      → ((p : Payload) → env.payload ≡ some p → Runs t idle (f p) (Projected c env t))
      → Runs t idle (decoded env f) (Projected c env t)
  unfolding decoded
  decoded-Runs c f h = go env.payload h
    where
      go :
          (o : Option Payload)
          → ((p : Payload) → o ≡ some p → Runs t idle (f p) (Projected c env t))
          → Runs t idle
              (elim o as (λ k. Method) [ none ↦ respond false | some p ↦ f p ])
              (Projected c env t)
      go none k = Runs-respond _ (inl (refl, refl))
      go (some p) k = k p refl

  dispatch-Runs : (c : Consumer) → Runs t idle (dispatch c env) (Projected c env t)
  unfolding dispatch_core dispatch_payment
  dispatch-Runs core =
      Runs-if _ _ _ _
        (λ a. decoded-Runs core _ (λ p e. created-Runs core env t p e (kind-created _ a)))
        (λ a.
          Runs-if _ _ _ _
            (λ b. decoded-Runs core _ (λ p e. weighed-Runs core env t p e (kind-weighed _ a b)))
            (λ b.
              Runs-if _ _ _ _
                (λ d.
                  decoded-Runs core _ (λ p e. changed-Runs core env t p e (kind-changed _ a b d)))
                (λ d. mark_only-Runs core env t (kind-other _ a b d))))
  dispatch-Runs payments =
      Runs-if _ _ _ _
        (λ a.
          decoded-Runs payments _ (λ p e. refund-Runs payments env t p e (kind-refunded _ true a)))
        (λ a. mark_only-Runs payments env t (kind-refunded _ false a))

  verdict-Handled :
      (c : Consumer)
      → processed env.event_id t ≡ false
      → (b : Bool) (t' : Tables) → Projected c env t b t'
      → Handled c env t (verdict_of b) t'
  verdict-Handled c fresh true t' (inl (q, e)) = absurd (cc)
  verdict-Handled c fresh false t' (inl (q, e)) = rw e put_back
  verdict-Handled c fresh b t' (inr (o, u, r, e)) = rw e (reacted (verdict_of b) o u fresh r)

  -- Whatever the replies of the database, a delivery ends in one of three ways.
  pub handle_envelope-Runs :
      (c : Consumer) → Runs t idle (handle_envelope (dispatch c) env) (Handled c env t)
  unfolding handle_envelope row_or
  handle_envelope-Runs c =
      Runs-query_pool _ _
        (λ b known. Runs-pure _ _ (
          Runs-respond_if _ _ _ _ (λ q. seen_before (cc))
            (λ q.
              Runs-returned _ _ (dispatch-Runs c)
                (λ fine u h. Runs-respond _ (verdict-Handled c (cc) fine u h)))))
        (λ e. absurd (cc)) (Runs-respond_bind _ _ put_back)

pub processed-mark : (e : String) (t : Tables) → processed e (mark e t) ≡ true
unfolding mark processed
processed-mark e t = elim (Bool-cases (processed e t)) [
  | inl q ↦ rw q q
  | inr q ↦ rw (q, eq_refl e) refl
]

Handled-ack :
    (c : Consumer) (env : Envelope) (t : Tables) (v : Verdict) (t' : Tables)
    → Handled c env t v t'
    → v ≡ ack
    → processed env.event_id t' ≡ true
Handled-ack c env t v t' put_back e = absurd (cc)
Handled-ack c env t v t' (seen_before p) e = p
Handled-ack c env t v t' (reacted w o u fresh r) e = processed-mark env.event_id u

Handled-again :
    (c : Consumer) (env : Envelope) (t : Tables)
    → processed env.event_id t ≡ true
    → (v : Verdict) (t' : Tables) → Handled c env t v t'
    → t' ≡ t
Handled-again c env t old v t' put_back = refl
Handled-again c env t old v t' (seen_before e) = refl
Handled-again c env t old v t' (reacted w o u fresh r) = absurd (cc)

-- If a delivery is acknowledged, its event is marked as processed, and a further delivery of the
-- same event changes nothing, whatever the replies to either.
pub projected_once :
    (c : Consumer) (env : Envelope) (t : Tables) (net again : ℕ → Reply)
    → (handle_envelope (dispatch c) env (start net t)).0 ≡ exit ack
    → let t' = (handle_envelope (dispatch c) env (start net t)).1.tables in
      (processed env.event_id t' ≡ true)
      × ((handle_envelope (dispatch c) env (start again t')).1.tables ≡ t')
projected_once c env t net again e =
    let t' = (handle_envelope (dispatch c) env (start net t)).1.tables in
    let marked : processed env.event_id t' ≡ true =
      Handled-ack c env t ack t' (Runs-answer (handle_envelope-Runs env t c) net e) refl in
    (
      marked,
      Runs-Keeps (λ x. x ≡ t') (handle_envelope-Runs env t' c) (Handled-again c env t' marked)
          again,
    )
