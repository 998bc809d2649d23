-- ===== src/Payment/Create/Calm.antt =====
-- `create_payment` where every call comes through.
use laundry_platform.Base.{ℕ, none, some, false, ◌≡◌, refl, str_eq, ◌||◌, not, Bool-cases, inl, inr}
use laundry_platform.Base.Int.{pos, leb_ℤ}
use laundry_platform.Db.{
  start, calm, exit, applied, ◌>>=◌, pure, respond, respond_if, respond_some, done_or, exec_tx,
  begin_tx, need, commit,
}
use laundry_platform.Payment.Tables.{
  Tables, Payment, json, payment_body, is_paid, announce, log_transaction, write_outbox_event,
}
use laundry_platform.Payment.Create.{
  CoreOrder, CreateRequest, Outside, create_payment, store_payment, write_if, charge_guards,
  payment_row, insert_payment, charge_log, payment_event, valid_method,
}
use laundry_platform.Payment.Create.Effect.{announce_if}

-- Where every call comes through, a valid request for an order that Core knows and the guards let
-- through, with a charge that the provider took and a row that breaks no constraint, is answered
-- 201 with that row; the row, its log entry and its events are committed.
pub create_payment_succeeds :
    (req : CreateRequest) (out : Outside) (t u : Tables) (o : CoreOrder) (p : Payment) (n : ℕ)
    → (str_eq req.order_id "" || leb_ℤ req.amount (pos 0) || not (valid_method req.method)) ≡ false
    → out.core_order ≡ some o
    → charge_guards o req ≡ none
    → payment_row req out o ≡ some p
    → insert_payment p t ≡ applied n u
    → ((create_payment req out (start calm t)).0 ≡ exit (json 201 (payment_body p)))
      × ((create_payment req out (start calm t)).1.tables
          ≡ announce_if
              (is_paid p.status)
              (payment_event "payment.paid" p)
              (announce (payment_event "payment.created" p) (log_transaction (charge_log p) u)))
unfolding create_payment store_payment write_if write_outbox_event ◌>>=◌ pure respond respond_if
    respond_some done_or exec_tx begin_tx need commit start payment_row
create_payment_succeeds req out t u o p n valid known allowed row stored =
    rw (valid, known, allowed, row, stored)
      (elim (Bool-cases (is_paid p.status)) [
        | inl e ↦ rw e (refl, refl)
        | inr e ↦ rw e (refl, refl)
      ])
