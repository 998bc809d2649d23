-- ===== src/Payment/Create/Effect.antt =====
-- `create_payment` on every branch.
use laundry_platform.Base.{
  ℕ, String, Option, none, some, Bool, true, false, not, ◌≡◌, refl, ◌⊎◌, inl, inr, arith, str_eq,
  ◌||◌, ◌&&◌, is_some, exists, ap, [], ◌∷◌, ◌++◌,
}
use laundry_platform.Base.Int.{ℤ, pos, leb_ℤ, eqb_ℤ}
use laundry_platform.Db.{M, applied, ◌>>=◌, need, done_or, commit, respond}
use laundry_platform.Db.Runs.{
  Runs, Runs-respond, Runs-pure, Runs-need, Runs-respond_bind, Runs-respond_if, Runs-respond_some,
  idle, seeing, broken,
}
use laundry_platform.Db.Calls.{
  Runs-begin_tx, Runs-exec_tx, Runs-write, Runs-commit, Runs-commit_broken,
}
use laundry_platform.Payment.Tables.{
  Tables, Payment, Response, error, json, internal_error, payment_body, is_paid, log_transaction,
  announce, OutboxRow,
}
use laundry_platform.Payment.Outbox.{Runs-write_outbox_event, Runs-write_outbox_event_broken}
use laundry_platform.Payment.Create.{
  CoreOrder, CreateRequest, Outside, charge_guards, payment_row, insert_payment, charge_log,
  payment_event, write_if, store_payment, create_payment, respond_none, valid_method, differs,
  cash_payment, charged_payment,
}

abbrev pub announce_if : Bool → OutboxRow → Tables → Tables
announce_if false e t = t
announce_if true e t = announce e t

-- An order has a row that is paid.
abbrev pub paid_row : String → Tables → Bool
paid_row order_id t =
    exists (λ (x : Payment). str_eq x.order_id order_id && is_paid x.status) t.payments

with_logs : Payment → Tables → Tables
with_logs p u =
    announce_if (is_paid p.status) (payment_event "payment.paid" p)
      (announce (payment_event "payment.created" p) (log_transaction (charge_log p) u))

same_amount : (a b : ℤ) → eqb_ℤ a b ≡ true → a ≡ b
same_amount a b e = ground arith

total_is : (o : Option ℤ) (a : ℤ) → is_some o ≡ true → differs o a ≡ false → o ≡ some a
total_is none a s d = absurd (cc)
total_is (some b) a s d = ap some (same_amount b a (ground arith))

guards_hold :
    (o : CoreOrder) (req : CreateRequest)
    → charge_guards o req ≡ none
    → (str_eq o.status "WEIGHING" ≡ true)
      × (str_eq o.payment_status "PAID" ≡ false)
      × (o.total_amount ≡ some req.amount)
unfolding charge_guards
guards_hold o req e = ground (arith, total_is o.total_amount req.amount)

row_of_order :
    (req : CreateRequest) (out : Outside) (o : CoreOrder) (p : Payment)
    → payment_row req out o ≡ some p
    → (p.order_id ≡ req.order_id) × (p.amount ≡ req.amount)
unfolding payment_row cash_payment charged_payment
row_of_order req out o p e = ground arith

inserted_row :
    (p : Payment) (t : Tables) (n : ℕ) (u : Tables)
    → insert_payment p t ≡ applied n u
    → (u ≡ record t { payments = t.payments ++ p ∷ [] })
      × (is_paid p.status ≡ true → paid_row p.order_id t ≡ false)
unfolding insert_payment
inserted_row p t n u e = ground arith

module _ (req : CreateRequest) (out : Outside) (t : Tables) where
  pub record Charged (t' : Tables) : Type 0 where
    pub valid :
        (str_eq req.order_id "" || leb_ℤ req.amount (pos 0) || not (valid_method req.method))
        ≡ false
    pub order : CoreOrder
    pub order_known : out.core_order ≡ some order
    pub being_weighed : str_eq order.status "WEIGHING" ≡ true
    pub not_paid : str_eq order.payment_status "PAID" ≡ false
    pub total_asked : order.total_amount ≡ some req.amount
    pub payment : Payment
    pub charged : payment_row req out order ≡ some payment
    pub of_order : (payment.order_id ≡ req.order_id) × (payment.amount ≡ req.amount)
    pub first_paid : is_paid payment.status ≡ true → paid_row payment.order_id t ≡ false
    pub committed :
        t'
        ≡ announce_if (is_paid payment.status) (payment_event "payment.paid" payment) (
            announce (payment_event "payment.created" payment) (
              log_transaction
                (charge_log payment)
                (record t { payments = t.payments ++ payment ∷ [] })))

  abbrev pub Answered : Response → Tables → Type 0
  Answered (error n c) t' = (t' ≡ t) ⊎ (n ≡ 500) × Charged t'
  Answered (json n b) t' = (n ≡ 201) × Charged t'

  known :
      {A : Type 0} (o : Option A) (r : Response) (f : A → M Tables Response Response)
      → Answered r t
      → ((a : A) → o ≡ some a → Runs t idle (f a) Answered)
      → Runs t idle (respond_none r o >>= f) Answered
  known none r f q h = Runs-respond_bind _ _ q
  known (some a) r f q h = Runs-pure _ _ (h a refl)

  ends :
      {x : Tables} (p : Payment)
      → Charged x
      → Runs {A = Response} t
          (seeing x)
          (need internal_error commit >>= λ _. respond (json 201 (payment_body p)))
          Answered
  ends p w = Runs-need _ _ _ _ (
      Runs-commit _ _ (Runs-respond _ (refl, w)) (Runs-respond _ (inr (refl, w)))
        (Runs-respond _ (inl refl)))

  paid_ends :
      {x : Tables} (b : Bool) (e : OutboxRow) (p : Payment)
      → Charged (announce_if b e x)
      → Runs {A = Response} t
          (seeing x)
          (write_if b e >>= λ _.
            need internal_error commit >>= λ _. respond (json 201 (payment_body p)))
          Answered
  unfolding write_if
  paid_ends false e p w = Runs-pure _ _ (ends p w)
  paid_ends true e p w =
      Runs-write_outbox_event _ _ _ (ends p w)
        (Runs-need _ _ _ _ (Runs-commit_broken _ (Runs-respond _ (inl refl))))

  paid_broken :
      (b : Bool) (e : OutboxRow) (p : Payment)
      → Runs {A = Response} t broken
          (write_if b e >>= λ _.
            need internal_error commit >>= λ _. respond (json 201 (payment_body p)))
          Answered
  unfolding write_if
  paid_broken false e p =
      Runs-pure _ _ (Runs-need _ _ _ _ (Runs-commit_broken _ (Runs-respond _ (inl refl))))
  paid_broken true e p =
      Runs-write_outbox_event_broken _ _
        (Runs-need _ _ _ _ (Runs-commit_broken _ (Runs-respond _ (inl refl))))

  refused_by : (r : Response) (o : CoreOrder) → charge_guards o req ≡ some r → Answered r t
  unfolding charge_guards
  refused_by (error n c) o e = inl refl
  refused_by (json n b) o e = ground arith

  -- Whatever the replies of the database, `create_payment` answers; it answers 201 only when the
  -- request is valid, Core's order is being weighed, not paid and its total is the amount asked
  -- for, and no paid row of the order is there if the new row is paid. It has then committed the
  -- new row, of that order and amount, its entry of the log and `payment.created`, and
  -- `payment.paid` exactly when the row is paid. An error leaves the tables as they were, or is a
  -- 500 after all of that was committed.
  pub create_payment-Runs : Runs t idle (create_payment req out) Answered
  unfolding create_payment store_payment done_or with_logs
  create_payment-Runs =
      Runs-respond_if _ _ _ _ (λ e. inl refl)
        (λ ok_request. known _ _ _ (inl refl) (λ o o_known.
          Runs-respond_some _ _ _ (λ r e. refused_by r o e)
            (λ ok_order. known _ _ _ (inl refl) (λ p row. Runs-need _ _ _ _ (
              Runs-begin_tx _
                (Runs-exec_tx _ _ _
                  (λ n y e. Runs-pure _ _ (
                    Runs-write _ _ _ _
                      (Runs-pure _ _ (
                        Runs-write_outbox_event _ _ _
                          (paid_ends _ _ _ (record {
                            valid = ok_request;
                            order = o;
                            order_known = o_known;
                            being_weighed = (guards_hold o req ok_order).0;
                            not_paid = (guards_hold o req ok_order).1;
                            total_asked = (guards_hold o req ok_order).2;
                            payment = p;
                            charged = row;
                            of_order = row_of_order req out o p row;
                            first_paid = (inserted_row p t n y e).1;
                            committed = ap (with_logs p) (inserted_row p t n y e).0;
                          }))
                          (paid_broken _ _ _)))
                      (Runs-respond_bind _ _ (inl refl))))
                  (λ e. Runs-respond_bind _ _ (inl refl)) (Runs-respond_bind _ _ (inl refl)))
                (Runs-respond _ (inl refl)))))))
