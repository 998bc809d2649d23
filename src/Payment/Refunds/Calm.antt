-- ===== src/Payment/Refunds/Calm.antt =====
-- `approve_refund` where every call comes through.
use laundry_platform.Base.{
  ℕ, String, Option, some, false, ◌≡◌, refl, find_key, find_key-update_key, eq_refl,
}
use laundry_platform.Base.Int.{ℤ}
use laundry_platform.Db.{
  start, calm, exit, ◌>>=◌, pure, respond, respond_if, row_or, done_or, query_pool, query_tx,
  exec_tx, begin_tx, need, commit,
}
use laundry_platform.Shared.HttpAuth.{Principal}
use laundry_platform.Payment.Tables.{
  Tables, Refund, requested, json, refund_body, refund_key, write_outbox_event,
}
use laundry_platform.Payment.Refunds.{
  approve_refund, show_refund, bad_amount, amount_or, approved, complete_refund, refund_payment,
}
use laundry_platform.Payment.Refunds.Effect.{approval}

-- Where every call comes through, an approval of a refund that is requested, for an amount in
-- range, is answered 200 with the completed refund, and the refund, the payment, the log and the
-- event are committed.
pub approve_refund_succeeds :
    (id : String) (req_amount : Option ℤ) (now : ℕ) (p : Principal) (t : Tables) (r : Refund)
    → find_key refund_key id t.refunds ≡ some r
    → r.status ≡ requested
    → bad_amount req_amount r.amount ≡ false
    → ((approve_refund id req_amount now p (start calm t)).0
        ≡ exit (json 200 (refund_body (approved (amount_or req_amount r.amount) p.id now r))))
      × ((approve_refund id req_amount now p (start calm t)).1.tables
          ≡ approval id req_amount now p t r)
unfolding approve_refund show_refund write_outbox_event complete_refund refund_payment ◌>>=◌ pure
    respond respond_if row_or done_or query_pool query_tx exec_tx begin_tx need commit start
approve_refund_succeeds id req_amount now p t r found state ranged =
    rw (found, state, ranged)
      (rw
        (
          find_key-update_key refund_key id id (approved (amount_or req_amount r.amount) p.id now)
              t.refunds (λ x. refl),
          eq_refl id,
          found,
        )
        (refl, refl))
