-- ===== src/Payment/Refunds/Request.antt =====
-- `create_refund` on every branch.
use laundry_platform.Base.{
  ℕ, String, [], ◌∷◌, ◌++◌, Option, none, some, Bool, false, not, ◌≡◌, refl, ◌⊎◌, inl, inr, ◌∙◌,
  arith, find_key, str_eq,
}
use laundry_platform.Base.Text.{trim_space}
use laundry_platform.Db.{M, applied, ◌>>=◌, row_or, done_or}
use laundry_platform.Db.Runs.{
  Runs, Runs-respond, Runs-pure, Runs-respond_bind, Runs-respond_if, idle,
}
use laundry_platform.Db.Calls.{Runs-query_pool, Runs-exec_pool}
use laundry_platform.Shared.HttpAuth.{Principal}
use laundry_platform.Payment.Tables.{
  Tables, Payment, Refund, Status, paid, Response, error, json, payment_key, is_paid,
}
use laundry_platform.Payment.Create.{CoreOrder, respond_none}
use laundry_platform.Payment.Refunds.{
  create_refund, already_requested, insert_refund, new_refund, show_refund,
}

paid_of : (s : Status) → not (is_paid s) ≡ false → s ≡ paid
paid_of s h = ground arith

inserted_refund :
    (r : Refund) (t : Tables) (n : ℕ) (u : Tables)
    → insert_refund r t ≡ applied n u
    → u ≡ record t { refunds = t.refunds ++ r ∷ [] }
unfolding insert_refund
inserted_refund r t n u e = ground arith

module _ (payment_id reason : String) (core_order : Option CoreOrder) (id code : String)
    (p : Principal) (t : Tables) where
  -- A paid payment of an order that is not cancelled, without a live refund, gets one.
  pub record Requested (t' : Tables) : Type 0 where
    pub payment : Payment
    pub row_found : find_key payment_key payment_id t.payments ≡ some payment
    pub was_paid : payment.status ≡ paid
    pub order : CoreOrder
    pub order_known : core_order ≡ some order
    pub not_cancelled : str_eq order.status "CANCELLED" ≡ false
    pub none_live : already_requested payment_id t ≡ false
    pub committed : t' ≡ record t {
      refunds = t.refunds ++ new_refund id code payment (trim_space reason) p.id ∷ [];
    }

  abbrev pub Answered : Response → Tables → Type 0
  Answered (error n c) t' = (t' ≡ t) ⊎ (n ≡ 500) × Requested t'
  Answered (json n b) t' = (n ≡ 201) × Requested t'

  shown : {x : Tables} → Requested x → Runs x idle (show_refund 201 id) Answered
  unfolding show_refund row_or
  shown w =
      Runs-query_pool _ _ (λ r e. Runs-pure _ _ (Runs-respond _ (refl, w)))
        (λ e. Runs-respond_bind _ _ (inr (refl, w))) (Runs-respond_bind _ _ (inr (refl, w)))

  known :
      (o : Option CoreOrder) (f : CoreOrder → M Tables Response Response)
      → ((a : CoreOrder) → o ≡ some a → Runs t idle (f a) Answered)
      → Runs t idle (respond_none (error 503 "DEPENDENCY_UNAVAILABLE") o >>= f) Answered
  known none f h = Runs-respond_bind _ _ (inl refl)
  known (some a) f h = Runs-pure _ _ (h a refl)

  false_of :
      {a : Bool}
      → some (already_requested payment_id t) ≡ some a
      → a ≡ false
      → already_requested payment_id t ≡ false
  false_of {a} e f = let z : already_requested payment_id t ≡ a = cc in z ∙ f

  -- Whatever the replies of the database, `create_refund` answers; it answers 201 only for a paid
  -- payment that has no live refund, whose order Core knows and that is not cancelled, and has then
  -- committed one new refund of that payment. An error leaves the tables as they were, or is a 500
  -- after that was committed.
  pub create_refund-Runs :
      Runs t idle (create_refund payment_id reason core_order id code p) Answered
  unfolding create_refund row_or done_or
  create_refund-Runs =
      Runs-respond_if _ _ _ _ (λ e. inl refl)
        (λ valid.
          Runs-query_pool _ _
            (λ x found. Runs-pure _ _ (
              Runs-respond_if _ _ _ _ (λ e. inl refl)
                (λ settled. known _ _ (λ o o_known.
                  Runs-respond_if _ _ _ _ (λ e. inl refl)
                    (λ going.
                      Runs-query_pool _ _
                        (λ live q. Runs-pure _ _ (
                          Runs-respond_if _ _ _ _ (λ e. inl refl)
                            (λ none_yet.
                              Runs-exec_pool _ _
                                (λ n u e.
                                  let w : Requested u = record {
                                    payment = x;
                                    row_found = found;
                                    was_paid = paid_of x.status settled;
                                    order = o;
                                    order_known = o_known;
                                    not_cancelled = going;
                                    none_live = false_of q none_yet;
                                    committed = inserted_refund _ t n u e;
                                  } in
                                  (Runs-pure _ _ (shown w), Runs-respond_bind _ _ (inr (refl, w))))
                                (λ e. Runs-respond_bind _ _ (inl refl))
                                (Runs-respond_bind _ _ (inl refl)))))
                        (λ e. Runs-respond_bind _ _ (inl refl))
                        (Runs-respond_bind _ _ (inl refl)))))))
            (λ e. Runs-respond_bind _ _ (inl refl)) (Runs-respond_bind _ _ (inl refl)))
