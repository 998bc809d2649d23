-- ===== src/Core/Finalize/Effect.antt =====
-- `finalize_weighing` on every branch: what it answers, and what it commits.
use laundry_platform.Base.{
  ℕ, String, ◌∷◌, some, Bool, false, ◌≡◌, refl, ◌∙◌, ◌⊎◌, inl, inr, find_key,
}
use laundry_platform.Base.Int.{ℤ}
use laundry_platform.Db.{applied, row_or, done_or}
use laundry_platform.Db.Runs.{
  Runs, Runs-respond, Runs-pure, Runs-need, Runs-respond_bind, Runs-respond_if, Runs-assoc, idle,
  seeing,
}
use laundry_platform.Db.Calls.{
  Runs-query_tx, Runs-query_pool, Runs-begin_tx, Runs-exec_tx, Runs-write,
}
use laundry_platform.Core.Tables.{Tables, Float64, Order, OutboxRow, order_weighed, order_key}
use laundry_platform.Core.Float.{FloatOps}
use laundry_platform.Core.Response.{Response, error, json}
use laundry_platform.Core.Transition.{write_outbox_event}
use laundry_platform.Core.Fetch.{commit_and_show}
use laundry_platform.Core.Fetch.Reads.{Runs-commit_and_show, Runs-commit_and_show_broken}
use laundry_platform.Core.Finalize.{
  finalize_weighing, FinalizeRequest, incomplete, summed, active_tax_rate_value, bill_of, Bill,
  set_bill,
}

abbrev pub weighed_event : String → Bill → OutboxRow
weighed_event id b = record {
  aggregate_id = id;
  event_type = "order.weighed";
  payload = order_weighed id b.subtotal b.tax b.total;
}

module _ (ops : FloatOps) (order_id : String) (req : FinalizeRequest) (t : Tables) where
  -- All items were weighed, the bill of the order's items is stored, and the event goes with it.
  pub record Finalized (t' : Tables) : Type 0 where
    pub order : Order
    pub order_found : find_key order_key order_id t.orders ≡ some order
    pub all_weighed : incomplete order_id t ≡ false
    pub subtotal : ℤ
    pub subtotal_summed : summed order_id t ≡ some subtotal
    pub rate : Float64
    pub rate_active : active_tax_rate_value t ≡ some rate
    pub rows : ℕ
    pub billed : Tables
    pub bill_set :
        set_bill ops order_id (bill_of ops req order subtotal rate) t ≡ applied rows billed
    pub committed : t' ≡ record billed {
      outbox_events =
          weighed_event order_id (bill_of ops req order subtotal rate) ∷ billed.outbox_events;
    }

  abbrev pub Answered : Response → Tables → Type 0
  Answered (error n c) t' = (t' ≡ t) ⊎ (n ≡ 500) × Finalized t'
  Answered (json n b) t' = (n ≡ 200) × Finalized t'

  -- Whatever the replies of the database, `finalize_weighing` answers; it answers 200 only when the
  -- order was there, all its items were weighed and the table takes the bill, and has then
  -- committed the bill and `order.weighed` together. An error leaves the tables as they were, or is
  -- a 500 after all of that was committed.
  pub finalize_weighing-Runs : Runs t idle (finalize_weighing ops order_id req) Answered
  unfolding finalize_weighing row_or done_or write_outbox_event
  finalize_weighing-Runs = Runs-need _ _ _ _ (
      Runs-begin_tx _
        (Runs-query_tx _ _ _
          (λ missing m. Runs-pure _ _ (
            Runs-respond_if _ _ _ _ (λ e. inl refl)
              (λ complete.
                Runs-query_tx _ _ _
                  (λ subtotal summed_up. Runs-pure _ _ (
                    Runs-query_pool _ _
                      (λ rate rated. Runs-pure _ _ (
                        Runs-query_tx _ _ _
                          (λ o found. Runs-pure _ _ (
                            Runs-exec_tx _ _ _
                              (λ n x e. Runs-pure _ _ (
                                Runs-assoc _ _ _ (
                                  Runs-write _ _ _ _
                                    (Runs-pure _ _ (
                                      ends (record {
                                        order = o;
                                        order_found = found;
                                        all_weighed = false_of m complete;
                                        subtotal = subtotal;
                                        subtotal_summed = summed_up;
                                        rate = rate;
                                        rate_active = rated;
                                        rows = n;
                                        billed = x;
                                        bill_set = e;
                                        committed = refl;
                                      })))
                                    (Runs-pure _ _ (Runs-commit_and_show_broken _ (inl refl))))))
                              (λ e. Runs-respond_bind _ _ (inl refl))
                              (Runs-respond_bind _ _ (inl refl))))
                          (λ e. Runs-respond_bind _ _ (inl refl))
                          (Runs-respond_bind _ _ (inl refl))))
                      (λ e. Runs-respond_bind _ _ (inl refl)) (Runs-respond_bind _ _ (inl refl))))
                  (λ e. Runs-respond_bind _ _ (inl refl)) (Runs-respond_bind _ _ (inl refl)))))
          (λ e. Runs-respond_bind _ _ (inl refl)) (Runs-respond_bind _ _ (inl refl)))
        (Runs-respond _ (inl refl)))
    where
      ends : {x : Tables} → Finalized x → Runs t (seeing x) (commit_and_show order_id) Answered
      ends w = Runs-commit_and_show _ _ (λ view shown. (refl, w)) (inr (refl, w)) (inl refl)

      false_of :
          {a : Bool}
          → some (incomplete order_id t) ≡ some a
          → a ≡ false
          → incomplete order_id t ≡ false
      false_of {a} e f = let z : incomplete order_id t ≡ a = cc in z ∙ f
