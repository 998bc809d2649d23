-- ===== src/Payment/Refunds/Twice.antt =====
-- A refund is approved once: the approval of a requested refund, and any later one.
use laundry_platform.Base.{
  ℕ, String, ◌∷◌, Option, some, true, false, ◌≡◌, refl, sym, ap, ◌∙◌, inl, inr, arith, find_key,
  find_key-update_key, eq_refl,
}
use laundry_platform.Base.Int.{ℤ, pos, leb_ℤ}
use laundry_platform.Db.{start, calm, exit, Reply}
use laundry_platform.Db.Runs.{Runs-total}
use laundry_platform.Shared.HttpAuth.{Principal}
use laundry_platform.Payment.Tables.{
  Tables, Payment, Refund, requested, completed, refunded, Response, error, json, refund_body,
  refund_key, payment_key,
}
use laundry_platform.Payment.Refunds.{
  approve_refund, bad_amount, approved, complete_refund, refund_payment, refunded_event,
}
use laundry_platform.Payment.Refunds.Effect.{approval, Approved, Answered, approve_refund-Runs}
use laundry_platform.Payment.Refunds.Calm.{approve_refund_succeeds}

in_range :
    (amount whole : ℤ)
    → leb_ℤ amount (pos 0) ≡ false
    → leb_ℤ amount whole ≡ true
    → bad_amount (some amount) whole ≡ false
unfolding bad_amount
in_range amount whole positive most = rw (positive, most) refl

-- An approval of a refund that is completed changes nothing.
completed_stays :
    (id : String) (asked : Option ℤ) (now : ℕ) (p : Principal) (t : Tables) (r : Refund)
    (net : ℕ → Reply)
    → find_key refund_key id t.refunds ≡ some r
    → r.status ≡ completed
    → (approve_refund id asked now p (start net t)).1.tables ≡ t
completed_stays id asked now p t r net found done =
    let (answer, is, ends) = Runs-total (approve_refund-Runs id asked now p t) net in
    same answer ends
  where
    not_approved : (x : Tables) → Approved id asked now p t x → ⊥
    not_approved x a =
        let e : some a.refund ≡ some r = sym a.row_found ∙ found in
        let q : a.refund ≡ r = ground arith in
        let s = a.was_requested in
        let z : a.refund.status ≡ completed = ap (λ (y : Refund). y.status) q ∙ done in ground arith

    same : {x : Tables} (a : Response) → Answered id asked now p t a x → x ≡ t
    same (error n c) (inl e) = e
    same (error n c) (inr (e, a)) = absurd (not_approved _ a)
    same (json n b) (e, a) = absurd (not_approved _ a)

-- Where every call comes through, the approval of a requested refund of a payment that is there,
-- for a positive amount that is at most the refund's, is answered 200; the refund is then completed
-- with that amount, approver and time, its payment is refunded, and `payment.refunded` is the
-- newest of the outbox. Any further approval of it then changes nothing, whatever the replies of
-- the database.
pub approve_refund_once :
    (id : String) (amount : ℤ) (now : ℕ) (p : Principal) (t : Tables) (r : Refund) (pay : Payment)
    (asked : Option ℤ) (later : ℕ) (q : Principal) (net : ℕ → Reply)
    → find_key refund_key id t.refunds ≡ some r
    → r.status ≡ requested
    → find_key payment_key r.payment_id t.payments ≡ some pay
    → leb_ℤ amount (pos 0) ≡ false
    → leb_ℤ amount r.amount ≡ true
    → let (answer, s) = approve_refund id (some amount) now p (start calm t) in
      let r' = record r {
        status = completed;
        amount = amount;
        approved_by = some p.id;
        processed_at = some now;
      } in
      (answer ≡ exit (json 200 (refund_body r')))
      × (find_key refund_key id s.tables.refunds ≡ some r')
      × (find_key payment_key r.payment_id s.tables.payments
          ≡ some (record pay { status = refunded }))
      × (s.tables.outbox_events
          ≡ record {
            aggregate_id = r.payment_id;
            event_type = "payment.refunded";
            order_id = r.order_id;
            refund_id = r.id;
            amount = amount;
          }
            ∷ t.outbox_events)
      × ((approve_refund id asked later q (start net s.tables)).1.tables ≡ s.tables)
unfolding complete_refund refund_payment
approve_refund_once id amount now p t r pay asked later q net found state paid_there positive most =
    let (answer, committed) =
      approve_refund_succeeds id (some amount) now p t r found state
        (in_range amount r.amount positive most) in
    let t' = (approve_refund id (some amount) now p (start calm t)).1.tables in
    let there : find_key refund_key id t'.refunds ≡ some (approved amount p.id now r) =
      ap (λ (x : Tables). find_key refund_key id x.refunds) committed ∙ refund_there in
    (
      answer,
      there,
      ap (λ (x : Tables). find_key payment_key r.payment_id x.payments) committed ∙ payment_there,
      ap (λ (x : Tables). x.outbox_events) committed ∙ event_there,
      completed_stays id asked later q t' (approved amount p.id now r) net there refl,
    )
  where
    refund_there :
        find_key refund_key id (approval id (some amount) now p t r).refunds
        ≡ some (approved amount p.id now r)
    refund_there =
        rw
          (
            find_key-update_key refund_key id id (approved amount p.id now) t.refunds (λ x. refl),
            eq_refl id,
            found,
          )
          refl

    payment_there :
        find_key payment_key r.payment_id (approval id (some amount) now p t r).payments
        ≡ some (record pay { status = refunded })
    payment_there =
        rw
          (
            find_key-update_key payment_key r.payment_id r.payment_id
                (λ x. record x { status = refunded }) t.payments (λ x. refl),
            eq_refl r.payment_id,
            paid_there,
          )
          refl

    event_there :
        (approval id (some amount) now p t r).outbox_events
        ≡ refunded_event r amount ∷ t.outbox_events
    event_there = refl
