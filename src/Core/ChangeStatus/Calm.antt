-- ===== src/Core/ChangeStatus/Calm.antt =====
-- `change_order_status` where every call comes through.
use laundry_platform.Base.{
  String, none, some, false, ◌≡◌, refl, find_key, find_key-update_key, eq_refl,
}
use laundry_platform.Db.{
  start, calm, exit, ◌>>=◌, pure, respond, respond_some, row_or, query_pool, exec_tx, begin_tx,
  need, commit,
}
use laundry_platform.Shared.HttpAuth.{Principal}
use laundry_platform.Core.Tables.{Tables, Order, order_key}
use laundry_platform.Core.Response.{json, order_body}
use laundry_platform.Core.Transition.{
  transition_status_tx, ptr, set_status, insert_history, insert_outbox, write_outbox_event,
  event_type_for,
}
use laundry_platform.Core.Transition.Effect.{moved}
use laundry_platform.Core.Fetch.{commit_and_show, fetch_order, items_of}
use laundry_platform.Core.ChangeStatus.{change_order_status, status_guards, ChangeStatusRequest}

-- Where every call comes through, a request for an order that is there and that no guard speaks
-- against is answered 200 with the order in its new status, and all writes of the transition are
-- committed.
pub change_order_status_succeeds :
    (id : String) (req : ChangeStatusRequest) (p : Principal) (t : Tables) (o : Order)
    → find_key order_key id t.orders ≡ some o
    → status_guards o.status o.payment_status req p ≡ none
    → let t' = moved id o.status req.to_status p.id (ptr req.reason) false t in
      ((change_order_status id req p (start calm t)).0
        ≡ exit (
            json 200 (
              order_body
                (record { order = record o { status = req.to_status }; items = items_of o.id t }))))
      × ((change_order_status id req p (start calm t)).1.tables ≡ t')
unfolding change_order_status commit_and_show fetch_order items_of transition_status_tx set_status
    insert_history write_outbox_event insert_outbox event_type_for ptr moved ◌>>=◌ pure respond
    respond_some row_or query_pool exec_tx begin_tx need commit start
change_order_status_succeeds id req p t o found passed =
    rw
      (
        found,
        passed,
        find_key-update_key order_key id id (λ x. record x { status = req.to_status }) t.orders
            (λ x. refl),
        eq_refl id,
        found,
      )
      (rw
        (
          find_key-update_key order_key id id (λ x. record x { status = req.to_status }) t.orders
              (λ x. refl),
          eq_refl id,
          found,
        )
        (refl, refl))
