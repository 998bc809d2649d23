-- ===== src/Payment/Refunds/Effect.antt =====
-- `approve_refund` and `reject_refund` on every branch.
use laundry_platform.Base.{
  ℕ, String, Option, none, some, true, false, not, ◌≡◌, refl, ◌⊎◌, inl, inr, arith, find_key, subst,
}
use laundry_platform.Base.Int.{ℤ, pos, leb_ℤ}
use laundry_platform.Db.{row_or, done_or}
use laundry_platform.Db.Runs.{
  Runs, Runs-respond, Runs-pure, Runs-need, Runs-respond_bind, Runs-respond_if, idle,
}
use laundry_platform.Db.Calls.{
  Runs-query_tx, Runs-query_pool, Runs-begin_tx, Runs-write, Runs-commit, Runs-commit_broken,
}
use laundry_platform.Shared.HttpAuth.{Principal}
use laundry_platform.Payment.Tables.{
  Tables, Refund, RefundStatus, requested, Response, error, json, refund_key, is_requested,
  log_transaction, announce,
}
use laundry_platform.Payment.Outbox.{Runs-write_outbox_event}
use laundry_platform.Payment.Refunds.{
  approve_refund, bad_amount, amount_or, complete_refund, refund_payment, refund_log,
  refunded_event, show_refund,
}

leb_ℤ-refl : (a : ℤ) → leb_ℤ a a ≡ true
leb_ℤ-refl a = ground arith

requested_of : (s : RefundStatus) → not (is_requested s) ≡ false → s ≡ requested
requested_of s h = ground arith

in_range :
    (asked : Option ℤ) (whole : ℤ)
    → bad_amount asked whole ≡ false
    → (leb_ℤ (amount_or asked whole) whole ≡ true)
      × ((a : ℤ) → asked ≡ some a → leb_ℤ a (pos 0) ≡ false)
unfolding bad_amount
in_range none whole h = (leb_ℤ-refl whole, λ a e. absurd (cc))
in_range (some b) whole h = (
  ground arith,
  λ a e. let z : b ≡ a = cc in subst (λ x. leb_ℤ x (pos 0) ≡ false) z (ground arith),
)

module _ (id : String) (req_amount : Option ℤ) (now : ℕ) (p : Principal) (t : Tables) where
  -- What an approval commits: the refund, its payment, the log and the event together.
  abbrev pub approval : Refund → Tables
  approval r =
      let amount = amount_or req_amount r.amount in
      announce (refunded_event r amount) (
        log_transaction (refund_log r.payment_id amount)
          (refund_payment r.payment_id (complete_refund id amount p.id now t)))

  pub record Approved (t' : Tables) : Type 0 where
    pub refund : Refund
    pub row_found : find_key refund_key id t.refunds ≡ some refund
    pub was_requested : refund.status ≡ requested
    pub at_most_all : leb_ℤ (amount_or req_amount refund.amount) refund.amount ≡ true
    pub asked_positive : (a : ℤ) → req_amount ≡ some a → leb_ℤ a (pos 0) ≡ false
    pub committed : t' ≡ approval refund

  abbrev pub Answered : Response → Tables → Type 0
  Answered (error n c) t' = (t' ≡ t) ⊎ (n ≡ 500) × Approved t'
  Answered (json n b) t' = (n ≡ 200) × Approved t'

  shown : {x : Tables} → Approved x → Runs x idle (show_refund 200 id) Answered
  unfolding show_refund row_or
  shown w =
      Runs-query_pool _ _ (λ r e. Runs-pure _ _ (Runs-respond _ (refl, w)))
        (λ e. Runs-respond_bind _ _ (inr (refl, w))) (Runs-respond_bind _ _ (inr (refl, w)))

  -- Whatever the replies of the database, `approve_refund` answers; it answers 200 only when the
  -- refund was requested, the amount is at most the refund's and an amount asked for is positive.
  -- It has then committed the completed refund, the refunded payment, the entry of the log and the
  -- event together. An error leaves the tables as they were, or is a 500 after all of that was
  -- committed.
  pub approve_refund-Runs : Runs t idle (approve_refund id req_amount now p) Answered
  unfolding approve_refund row_or done_or
  approve_refund-Runs = Runs-need _ _ _ _ (
      Runs-begin_tx _
        (Runs-query_tx _ _ _
          (λ r found. Runs-pure _ _ (
            Runs-respond_if _ _ _ _ (λ e. inl refl)
              (λ still.
                Runs-respond_if _ _ _ _ (λ e. inl refl)
                  (λ ranged.
                    Runs-write _ _ _ _
                      (Runs-pure _ _ (
                        Runs-write _ _ _ _
                          (Runs-pure _ _ (
                            Runs-write _ _ _ _
                              (Runs-pure _ _ (
                                Runs-write_outbox_event _ _ _
                                  (let w : Approved (approval r) = record {
                                    refund = r;
                                    row_found = found;
                                    was_requested = requested_of r.status still;
                                    at_most_all = (in_range req_amount r.amount ranged).0;
                                    asked_positive = (in_range req_amount r.amount ranged).1;
                                    committed = refl;
                                  } in
                                    Runs-need _ _ _ _ (
                                      Runs-commit _ _ (shown w) (Runs-respond _ (inr (refl, w)))
                                        (Runs-respond _ (inl refl))))
                                  (Runs-need _ _ _ _
                                    (Runs-commit_broken _ (Runs-respond _ (inl refl))))))
                              (Runs-respond_bind _ _ (inl refl))))
                          (Runs-respond_bind _ _ (inl refl))))
                      (Runs-respond_bind _ _ (inl refl))))))
          (λ e. Runs-respond_bind _ _ (inl refl)) (Runs-respond_bind _ _ (inl refl)))
        (Runs-respond _ (inl refl)))
