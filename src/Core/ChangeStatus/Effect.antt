-- ===== src/Core/ChangeStatus/Effect.antt =====
-- `change_order_status` on every branch: what it answers, and what it commits.
use laundry_platform.Base.{String, none, some, false, ◌≡◌, arith, refl, ◌⊎◌, find_key, inl, inr}
use laundry_platform.Db.{◌>>=◌, need, row_or, begin_tx}
use laundry_platform.Db.Runs.{
  Runs, Runs-respond, Runs-pure, Runs-need, Runs-respond_bind, Runs-respond_some, idle,
}
use laundry_platform.Db.Calls.{Runs-query_pool, Runs-begin_tx}
use laundry_platform.Shared.HttpAuth.{Principal}
use laundry_platform.Core.Tables.{Tables, Order, order_key}
use laundry_platform.Core.Response.{Response, error, json, internal_error}
use laundry_platform.Core.Transition.{ptr, transition_status_tx}
use laundry_platform.Core.Transition.Effect.{moved}
use laundry_platform.Core.Transition.Rule.{Runs-transition_status_tx}
use laundry_platform.Core.Fetch.{commit_and_show}
use laundry_platform.Core.Fetch.Reads.{Runs-commit_and_show}
use laundry_platform.Core.ChangeStatus.{change_order_status, status_guards, ChangeStatusRequest}

module _ (id : String) (req : ChangeStatusRequest) (p : Principal) (t : Tables) where
  -- The order was there, no guard spoke against the request, and `t'` is `t` after the transition.
  pub record Changed (t' : Tables) : Type 0 where
    pub order : Order
    pub order_found : find_key order_key id t.orders ≡ some order
    pub guards_passed : status_guards order.status order.payment_status req p ≡ none
    pub committed : t' ≡ moved id order.status req.to_status p.id (ptr req.reason) false t

  abbrev pub Answered : Response → Tables → Type 0
  Answered (error n c) t' = (t' ≡ t) ⊎ (n ≡ 500) × Changed t'
  Answered (json n b) t' = (n ≡ 200) × Changed t'

  refusal :
      (o : Order) (r : Response)
      → status_guards o.status o.payment_status req p ≡ some r
      → Answered r t
  unfolding status_guards
  refusal o r g = ground arith

  writes :
      (o : Order)
      → Changed (moved id o.status req.to_status p.id (ptr req.reason) false t)
      → Runs t idle
          (need internal_error begin_tx >>= λ _.
            need internal_error
              (transition_status_tx id o.status req.to_status p.id (ptr req.reason) false)
            >>= λ _. commit_and_show id)
          Answered
  writes o changed = Runs-need _ _ _ _ (
      Runs-begin_tx _
        (Runs-need _ _ _ _ (
          Runs-transition_status_tx _ _ _ _ _ _ _ _
            (Runs-commit_and_show _ _ (λ view shown. (refl, changed)) (inr (refl, changed))
              (inl refl))
            (Runs-respond _ (inl refl))))
        (Runs-respond _ (inl refl)))

  -- Whatever the replies of the database, `change_order_status` answers; it answers 200 only when
  -- the order was there and no guard spoke against the request, and has then committed the new
  -- status, the entry in the audit trail and the event together. An error leaves the tables as they
  -- were, or is a 500 after all of that was committed.
  pub change_order_status-Runs : Runs t idle (change_order_status id req p) Answered
  unfolding change_order_status row_or
  change_order_status-Runs =
      Runs-query_pool _ _
        (λ o found. Runs-pure _ _ (
          Runs-respond_some _ _ _ (refusal o) (λ passed.
            writes o (record {
              order = o;
              order_found = found;
              guards_passed = passed;
              committed = refl;
            }))))
        (λ e. Runs-respond_bind _ _ (inl refl)) (Runs-respond_bind _ _ (inl refl))
