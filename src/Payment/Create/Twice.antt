-- ===== src/Payment/Create/Twice.antt =====
-- An order is paid in cash once: a charge, and any later one.
use laundry_platform.Base.{
  ℕ, [], ◌∷◌, ◌++◌, ◌||◌, ◌&&◌, if◌then◌else◌, none, some, true, false, not, ◌≡◌, refl, sym, ap,
  ◌∙◌, subst, inl, inr, arith, find_key, find_key-append, exists, exists-append, eq_refl, str_eq,
}
use laundry_platform.Base.Int.{ℤ, pos, leb_ℤ, eqb_ℤ}
use laundry_platform.Db.{start, calm, exit, Reply, applied}
use laundry_platform.Db.Runs.{Runs-total}
use laundry_platform.Payment.Tables.{
  Tables, Payment, paid, Response, error, json, payment_body, payment_key, is_paid, is_known,
}
use laundry_platform.Payment.Create.{
  CoreOrder, CreateRequest, Outside, create_payment, cash_payment, payment_row, insert_payment,
  charge_guards, valid_method,
}
use laundry_platform.Payment.Create.Effect.{paid_row, Charged, Answered, create_payment-Runs}
use laundry_platform.Payment.Create.Calm.{create_payment_succeeds}

request_valid :
    (req : CreateRequest)
    → str_eq req.order_id "" ≡ false
    → leb_ℤ req.amount (pos 0) ≡ false
    → req.method ≡ "CASH"
    → (str_eq req.order_id "" || leb_ℤ req.amount (pos 0) || not (valid_method req.method)) ≡ false
unfolding valid_method
request_valid req named positive cash = rw (named, positive, cash) refl

eqb_ℤ-refl : (a : ℤ) → eqb_ℤ a a ≡ true
eqb_ℤ-refl a = ground arith

order_passes :
    (o : CoreOrder) (req : CreateRequest)
    → str_eq o.status "WEIGHING" ≡ true
    → str_eq o.payment_status "PAID" ≡ false
    → o.total_amount ≡ some req.amount
    → charge_guards o req ≡ none
unfolding charge_guards
order_passes o req weighed unpaid total = rw (weighed, unpaid, total, eqb_ℤ-refl req.amount) refl

cash_row :
    (req : CreateRequest) (out : Outside) (o : CoreOrder)
    → req.method ≡ "CASH"
    → payment_row req out o ≡ some (cash_payment req out o)
unfolding payment_row
cash_row req out o cash = rw cash refl

is_inserted :
    (p : Payment) (t : Tables)
    → find_key payment_key p.id t.payments ≡ none
    → exists (λ (x : Payment). str_eq x.payment_code p.payment_code) t.payments ≡ false
    → paid_row p.order_id t ≡ false
    → leb_ℤ p.amount (pos 0) ≡ false
    → is_known p.status ≡ true
    → insert_payment p t ≡ applied 1 (record t { payments = t.payments ++ p ∷ [] })
unfolding insert_payment
is_inserted p t new_id new_code unpaid positive known = ground arith

-- A charge in cash of an order that has a paid row changes nothing.
paid_stays :
    (req : CreateRequest) (out : Outside) (t : Tables) (net : ℕ → Reply)
    → req.method ≡ "CASH"
    → paid_row req.order_id t ≡ true
    → (create_payment req out (start net t)).1.tables ≡ t
unfolding cash_payment
paid_stays req out t net cash has_paid =
    let (answer, is, ends) = Runs-total (create_payment-Runs req out t) net in same answer ends
  where
    not_charged : (x : Tables) → Charged req out t x → ⊥
    not_charged x c =
        let e : some (cash_payment req out c.order) ≡ some c.payment =
          sym (cash_row req out c.order cash) ∙ c.charged in
        let q : cash_payment req out c.order ≡ c.payment = ground arith in
        let first = c.first_paid (subst (λ (y : Payment). is_paid y.status ≡ true) q refl) in
        let none_paid : paid_row req.order_id t ≡ false =
          subst (λ i. paid_row i t ≡ false) c.of_order.0 first in
        absurd (cc)

    same : {x : Tables} (a : Response) → Answered req out t a x → x ≡ t
    same (error n c) (inl e) = e
    same (error n c) (inr (e, a)) = absurd (not_charged _ a)
    same (json n b) (e, a) = absurd (not_charged _ a)

-- Where every call comes through, a charge in cash of a positive amount, for an order that Core has
-- in weighing, not paid, with that total, and that has no paid row, with an id and a code that no
-- row has, is answered 201; its paid row is found under its id, and `payment.paid` and
-- `payment.created` are the newest of the outbox. Any further charge in cash of the same order then
-- changes nothing, whatever Core answers and whatever the replies of the database.
pub cash_paid_once :
    (req again : CreateRequest) (out out_again : Outside) (t : Tables) (o : CoreOrder)
    (net : ℕ → Reply)
    → str_eq req.order_id "" ≡ false
    → leb_ℤ req.amount (pos 0) ≡ false
    → req.method ≡ "CASH"
    → out.core_order ≡ some o
    → str_eq o.status "WEIGHING" ≡ true
    → str_eq o.payment_status "PAID" ≡ false
    → o.total_amount ≡ some req.amount
    → find_key payment_key out.id t.payments ≡ none
    → exists (λ (x : Payment). str_eq x.payment_code out.payment_code) t.payments ≡ false
    → exists (λ (x : Payment). str_eq x.order_id req.order_id && is_paid x.status) t.payments
      ≡ false
    → again.order_id ≡ req.order_id
    → again.method ≡ "CASH"
    → let (answer, s) = create_payment req out (start calm t) in
      let p : Payment = record {
        id = out.id;
        payment_code = out.payment_code;
        order_id = req.order_id;
        customer_id = o.customer_id;
        amount = req.amount;
        method = req.method;
        status = paid;
        paid_at = some out.now;
        provider = "CASH";
        provider_ref = none;
        checkout_url = none;
        qr_string = none;
      } in
      (answer ≡ exit (json 201 (payment_body p)))
      × (find_key payment_key out.id s.tables.payments ≡ some p)
      × (s.tables.outbox_events
          ≡ record {
            aggregate_id = out.id;
            event_type = "payment.paid";
            order_id = req.order_id;
            refund_id = "";
            amount = req.amount;
          }
            ∷ record {
              aggregate_id = out.id;
              event_type = "payment.created";
              order_id = req.order_id;
              refund_id = "";
              amount = req.amount;
            }
            ∷ t.outbox_events)
      × ((create_payment again out_again (start net s.tables)).1.tables ≡ s.tables)
unfolding cash_payment
cash_paid_once req again out out_again t o net named positive cash known weighed unpaid total new_id
      new_code none_paid same_order again_cash =
    let p = cash_payment req out o in
    let u = record t { payments = t.payments ++ p ∷ [] } in
    let (answer, committed) =
      create_payment_succeeds req out t u o p 1 (request_valid req named positive cash) known
        (order_passes o req weighed unpaid total) (cash_row req out o cash)
        (is_inserted p t new_id new_code none_paid positive refl) in
    let t' = (create_payment req out (start calm t)).1.tables in
    let rows : t'.payments ≡ t.payments ++ p ∷ [] = ap (λ (x : Tables). x.payments) committed in
    (
      answer,
      ap (find_key payment_key out.id) rows
          ∙ find_key-append payment_key out.id t.payments p new_id
          ∙ ap (λ b. if b then some p else none) (eq_refl out.id),
      ap (λ (x : Tables). x.outbox_events) committed,
      paid_stays again out_again t' net again_cash (
          ap (λ i. paid_row i t') same_order
          ∙ ap (exists (λ (x : Payment). str_eq x.order_id req.order_id && is_paid x.status)) rows
          ∙ exists-append (λ (x : Payment). str_eq x.order_id req.order_id && is_paid x.status)
              t.payments p
          ∙ rw (none_paid, eq_refl req.order_id) refl),
    )
