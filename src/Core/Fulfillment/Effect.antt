-- ===== src/Core/Fulfillment/Effect.antt =====
-- `update_fulfillment` on every branch, and the invariant under all four handlers.
use laundry_platform.Base.{
  ℕ, String, none, some, Bool, true, false, not, ◌≡◌, refl, ◌⊎◌, inl, inr, arith, find_key, str_eq,
  if◌then◌else◌,
}
use laundry_platform.Db.{M, ◌>>=◌, need, row_or, done_or, commit, respond}
use laundry_platform.Db.Runs.{
  Runs, Runs-respond, Runs-pure, Runs-need, Runs-respond_bind, Runs-respond_if, Runs-assoc, idle,
  seeing,
}
use laundry_platform.Db.Calls.{Runs-query_tx, Runs-begin_tx, Runs-write, Runs-commit}
use laundry_platform.Shared.HttpAuth.{Principal}
use laundry_platform.Core.OrderState.{Status, status_eq}
use laundry_platform.Core.Tables.{Tables, Order, Fulfillment, order_key}
use laundry_platform.Core.Response.{Response, Body, error, json, internal_error}
use laundry_platform.Core.Transition.Effect.{moved}
use laundry_platform.Core.Transition.Rule.{Runs-transition_if}
use laundry_platform.Core.Fulfillment.{
  Table, rows_of, fulfillment_key, UpdateRequest, valid_fulfillment_status, set_progress,
  follow_order, update_fulfillment,
}

module _ (table : Table) (from to : Status) (id : String) (req : UpdateRequest) (now : ℕ)
    (p : Principal) (t : Tables) where
  abbrev pub progressed : Tables
  progressed =
      set_progress table id req (if str_eq req.status "COMPLETED" then some now else none) t

  -- The request's row was there and is updated; the order moves along only from `from`, and only
  -- with a completed request.
  pub record Updated (t' : Tables) : Type 0 where
    pub request : Fulfillment
    pub request_found : find_key fulfillment_key id (rows_of table t) ≡ some request
    pub valid : valid_fulfillment_status req.status ≡ true
    pub outcome :
        (str_eq req.status "COMPLETED" ≡ false) × (t' ≡ progressed)
        ⊎ ((o : Order) × (str_eq req.status "COMPLETED" ≡ true)
            × (find_key order_key request.order_id progressed.orders ≡ some o)
            × (t' ≡ (
                if status_eq o.status from
                then moved request.order_id from to p.id none false progressed
                else progressed)))

  abbrev pub Answered : Response → Tables → Type 0
  Answered (error n c) t' = (t' ≡ t) ⊎ (n ≡ 500) × Updated t'
  Answered (json n b) t' = (n ≡ 200) × Updated t'

  valid_of : (b : Bool) → not b ≡ false → b ≡ true
  valid_of b h = ground arith

  followed :
      (b : Bool) (order_id : String) (f : Unit {0} → M Tables Response Response)
      → (b ≡ false → Runs t (seeing progressed) (f tt) Answered)
      → ((o : Order)
          → b ≡ true
          → find_key order_key order_id progressed.orders ≡ some o
          → Runs t
              (seeing (
                if status_eq o.status from
                then moved order_id from to p.id none false progressed
                else progressed))
              (f tt)
              Answered)
      → Runs t (seeing progressed) (follow_order b order_id from to p >>= f) Answered
  unfolding follow_order row_or
  followed false order_id f stay go = Runs-pure _ _ (stay refl)
  followed true order_id f stay go = Runs-assoc _ _ _ (
      Runs-query_tx _ _ _
        (λ o found. Runs-assoc _ _ _ (
          Runs-pure _ _ (
            Runs-need _ _ _ _ (
              Runs-transition_if _ _ _ _ _ _ _ _ _ (go o refl found) (Runs-respond _ (inl refl))))))
        (λ e. Runs-assoc _ _ _ (Runs-respond_bind _ _ (inl refl)))
        (Runs-assoc _ _ _ (Runs-respond_bind _ _ (inl refl))))

  ends :
      {x : Tables} (b : Body)
      → Updated x
      → Runs {A = Response} t
          (seeing x)
          (need internal_error commit >>= λ _. respond (json 200 b))
          Answered
  ends b w = Runs-need _ _ _ _ (
      Runs-commit _ _ (Runs-respond _ (refl, w)) (Runs-respond _ (inr (refl, w)))
        (Runs-respond _ (inl refl)))

  -- Whatever the replies of the database, `update_fulfillment` answers; it answers 200 only when
  -- the request was there and the status asked for is valid, and has then committed the request's
  -- progress, together with the order's transition exactly when the request is completed and the
  -- order stands in the status to leave. An error leaves the tables as they were, or is a 500 after
  -- all of that was committed.
  pub update_fulfillment-Runs : Runs t idle (update_fulfillment table from to id req now p) Answered
  unfolding update_fulfillment row_or done_or
  update_fulfillment-Runs =
      Runs-respond_if _ _ _ _ (λ e. inl refl)
        (λ ok_status. Runs-need _ _ _ _ (
          Runs-begin_tx _
            (Runs-query_tx _ _ _
              (λ f found. Runs-pure _ _ (
                Runs-write _ _ _ _
                  (Runs-pure _ _ (
                    followed _ _ _
                      (λ e. ends _ (record {
                        request = f;
                        request_found = found;
                        valid = valid_of _ ok_status;
                        outcome = inl (e, refl);
                      }))
                      (λ o e q. ends _ (record {
                        request = f;
                        request_found = found;
                        valid = valid_of _ ok_status;
                        outcome = inr (o, e, q, refl);
                      }))))
                  (Runs-respond_bind _ _ (inl refl))))
              (λ e. Runs-respond_bind _ _ (inl refl)) (Runs-respond_bind _ _ (inl refl)))
            (Runs-respond _ (inl refl))))
