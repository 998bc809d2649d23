-- ===== src/Core/Weigh/Effect.antt =====
-- `weigh_item` on every branch: what it answers, and what it commits.
use laundry_platform.Base.{
  ℕ, String, none, some, false, ◌&&◌, not, ◌≡◌, refl, ◌⊎◌, inl, inr, arith, if◌then◌else◌,
}
use laundry_platform.Base.Int.{pos}
use laundry_platform.Db.{applied, row_or, done_or}
use laundry_platform.Db.Runs.{
  Runs, Runs-respond, Runs-pure, Runs-need, Runs-respond_bind, Runs-respond_if, idle, seeing,
}
use laundry_platform.Db.Calls.{Runs-query_tx, Runs-begin_tx, Runs-exec_tx}
use laundry_platform.Shared.HttpAuth.{Principal}
use laundry_platform.Core.OrderState.{Status, received, weighing, status_eq}
use laundry_platform.Core.Tables.{Tables, Float64}
use laundry_platform.Core.Float.{FloatOps}
use laundry_platform.Core.Response.{Response, error, json}
use laundry_platform.Core.Transition.Effect.{moved}
use laundry_platform.Core.Transition.Rule.{Runs-transition_if}
use laundry_platform.Core.Fetch.{commit_and_show}
use laundry_platform.Core.Fetch.Reads.{Runs-commit_and_show}
use laundry_platform.Core.Weigh.{weigh_item, weigh_row, WeighRow, set_weight, item_subtotal}

module _ (ops : FloatOps) (order_id item_id : String) (weight : Float64) (p : Principal)
    (t : Tables) where
  -- The item is one of the order's, may be weighed now, and is stored with its subtotal; an order
  -- that was received is being weighed after that.
  pub record Weighed (t' : Tables) : Type 0 where
    pub found : WeighRow
    pub row_found : weigh_row order_id item_id t ≡ some found
    pub not_negative : ops.lt weight (ops.of_int64 (pos 0)) ≡ false
    pub in_time : (found.status ≡ received) ⊎ (found.status ≡ weighing)
    pub not_locked : found.is_locked ≡ false
    pub rows : ℕ
    pub stored : Tables
    pub weight_set :
        set_weight ops item_id weight (item_subtotal ops weight found.unit_price) t
        ≡ applied rows stored
    pub committed : t' ≡ (
        if status_eq found.status received
        then moved order_id received weighing p.id none false stored
        else stored)

  abbrev pub Answered : Response → Tables → Type 0
  Answered (error n c) t' = (t' ≡ t) ⊎ (n ≡ 500) × Weighed t'
  Answered (json n b) t' = (n ≡ 200) × Weighed t'

  in_time_of :
      (s : Status)
      → (not (status_eq s received) && not (status_eq s weighing)) ≡ false
      → (s ≡ received) ⊎ (s ≡ weighing)
  in_time_of s h = ground arith

  -- Whatever the replies of the database, `weigh_item` answers; it answers 200 only when the item
  -- is the order's and not locked, the order is received or being weighed and the weight is not
  -- negative. It has then committed the item's weight and subtotal, together with the order's
  -- transition to weighing where it was received. An error leaves the tables as they were, or is a
  -- 500 after all of that was committed.
  pub weigh_item-Runs : Runs t idle (weigh_item ops order_id item_id weight p) Answered
  unfolding weigh_item row_or done_or
  weigh_item-Runs =
      Runs-respond_if _ _ _ _ (λ e. inl refl)
        (λ positive. Runs-need _ _ _ _ (
          Runs-begin_tx _
            (Runs-query_tx _ _ _
              (λ r found. Runs-pure _ _ (
                Runs-respond_if _ _ _ _ (λ e. inl refl)
                  (λ timely.
                    Runs-respond_if _ _ _ _ (λ e. inl refl)
                      (λ free.
                        Runs-exec_tx _ _ _
                          (λ n x e. Runs-pure _ _ (
                            Runs-need _ _ _ _ (
                              Runs-transition_if _ _ _ _ _ _ _ _ _
                                (ends (record {
                                  found = r;
                                  row_found = found;
                                  not_negative = positive;
                                  in_time = in_time_of r.status timely;
                                  not_locked = free;
                                  rows = n;
                                  stored = x;
                                  weight_set = e;
                                  committed = refl;
                                }))
                                (Runs-respond _ (inl refl)))))
                          (λ e. Runs-respond_bind _ _ (inl refl))
                          (Runs-respond_bind _ _ (inl refl))))))
              (λ e. Runs-respond_bind _ _ (inl refl)) (Runs-respond_bind _ _ (inl refl)))
            (Runs-respond _ (inl refl))))
    where
      ends : {x : Tables} → Weighed x → Runs t (seeing x) (commit_and_show order_id) Answered
      ends w = Runs-commit_and_show _ _ (λ view shown. (refl, w)) (inr (refl, w)) (inl refl)
