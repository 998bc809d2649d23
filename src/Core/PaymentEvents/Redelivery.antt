-- ===== src/Core/PaymentEvents/Redelivery.antt =====
-- Repeated deliveries, and deliveries in another order.
use laundry_platform.Base.{ℕ, String, true, ◌≡◌, ◌≢◌, refl, inl, inr, Bool-cases, eq_refl}
use laundry_platform.Db.{Reply, start}
use laundry_platform.Db.Runs.{Runs-Keeps}
use laundry_platform.Core.Tables.{Tables}
use laundry_platform.Core.PaymentEvents.{Envelope, Verdict, processed, mark, handle_envelope}
use laundry_platform.Core.PaymentEvents.Delivery.{
  Handled, put_back, seen_before, reacted, nothing_to_do, handle_envelope-Runs,
}

processed-mark : (e : String) (t : Tables) → processed e (mark e t) ≡ true
unfolding mark
processed-mark e t = elim (Bool-cases (processed e t)) [
  | inl q ↦ rw q q
  | inr q ↦ rw (q, eq_refl e) refl
]

-- Only a reaction changes the tables, and it leaves the event marked.
Handled-marks :
    (env : Envelope) (t : Tables) (v : Verdict) (t' : Tables)
    → Handled env t v t'
    → t' ≢ t
    → processed env.event_id t' ≡ true
Handled-marks env t v t' put_back moved_on = absurd (moved_on refl)
Handled-marks env t v t' (seen_before e) moved_on = absurd (moved_on refl)
Handled-marks env t v t' (reacted w id u fresh x r) moved_on = processed-mark env.event_id u
Handled-marks env t v t' (nothing_to_do e) moved_on = absurd (moved_on refl)

Handled-again :
    (env : Envelope) (t : Tables)
    → processed env.event_id t ≡ true
    → (v : Verdict) (t' : Tables) → Handled env t v t'
    → t' ≡ t
Handled-again env t old v t' put_back = refl
Handled-again env t old v t' (seen_before e) = refl
Handled-again env t old v t' (reacted w id u fresh x r) = absurd (cc)
Handled-again env t old v t' (nothing_to_do e) = refl

-- If a delivery of a payment event changed the tables, a second delivery of the same event changes
-- nothing more, whatever the replies to either: also if the first was put back in the queue because
-- the answer to its commit was lost.
pub redelivery_changes_nothing :
    (env : Envelope) (t : Tables) (net again : ℕ → Reply)
    → (handle_envelope env (start net t)).1.tables ≢ t
    → let t' = (handle_envelope env (start net t)).1.tables in
      (handle_envelope env (start again t')).1.tables ≡ t'
redelivery_changes_nothing env t net again moved_on =
    let t' = (handle_envelope env (start net t)).1.tables in
    let marked =
      Runs-Keeps (λ x. x ≢ t → processed env.event_id x ≡ true) (handle_envelope-Runs env t)
        (Handled-marks env t) net moved_on in
    Runs-Keeps (λ x. x ≡ t') (handle_envelope-Runs env t') (Handled-again env t' marked) again
