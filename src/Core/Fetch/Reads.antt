-- ===== src/Core/Fetch/Reads.antt =====
-- `fetch_order` reads only, and what it finds is what the tables hold.
use laundry_platform.Base.{String, none, some, ◌≡◌, find_key}
use laundry_platform.Db.{M, Fetch, row, no_rows, unreadable, ◌>>=◌, row_or}
use laundry_platform.Db.Runs.{
  Runs, Runs-assoc, Runs-pure, Runs-need, Runs-respond, Runs-respond_bind, idle, seeing, broken,
}
use laundry_platform.Db.Calls.{Runs-query_pool, Runs-commit, Runs-commit_broken}
use laundry_platform.Core.Tables.{Tables, order_key}
use laundry_platform.Core.Response.{Response, OrderView, json, internal_error, order_body}
use laundry_platform.Core.Fetch.{fetch_order, items_of, commit_and_show}

-- The view shows the committed order and its items.
pub record Shows (id : String) (t : Tables) (view : OrderView) : Type 0 where
  pub order_found : find_key order_key id t.orders ≡ some view.order
  pub items_found : some (items_of view.order.id t) ≡ some view.items

module _ {B : Type 0} {t : Tables} {Q : Response → Tables → Type 0} where
  pub Runs-fetch_order :
      (id : String) (f : Fetch OrderView → M Tables Response B)
      → ((view : OrderView) → Shows id t view → Runs t idle (f (row view)) Q)
      → (find_key order_key id t.orders ≡ none → Runs t idle (f no_rows) Q)
      → Runs t idle (f unreadable) Q
      → Runs t idle (fetch_order id >>= f) Q
  unfolding fetch_order
  Runs-fetch_order id f good none_row bad = Runs-assoc _ _ _ (
      Runs-query_pool _ _
        (λ o e. Runs-assoc _ _ _ (
          Runs-query_pool _ _
            (λ items q. Runs-pure _ _ (good _ (record { order_found = e; items_found = q })))
            (λ q. Runs-pure _ _ bad) (Runs-pure _ _ bad)))
        (λ e. Runs-pure _ _ (none_row e)) (Runs-pure _ _ bad))

module _ {t : Tables} {Q : Response → Tables → Type 0} where
  pub Runs-commit_and_show :
      (id : String) (x : Tables)
      → ((view : OrderView) → Shows id x view → Q (json 200 (order_body view)) x)
      → Q internal_error x
      → Q internal_error t
      → Runs t (seeing x) (commit_and_show id) Q
  unfolding commit_and_show row_or
  Runs-commit_and_show id x good late bad = Runs-need _ _ _ _ (
      Runs-commit _ _
        (Runs-fetch_order _ _ (λ view shown. Runs-pure _ _ (Runs-respond _ (good view shown)))
          (λ e. Runs-respond_bind _ _ late) (Runs-respond_bind _ _ late))
        (Runs-respond _ late) (Runs-respond _ bad))

  -- A transaction that is given up ends in an internal error, with nothing committed.
  pub Runs-commit_and_show_broken :
      (id : String) → Q internal_error t → Runs t broken (commit_and_show id) Q
  unfolding commit_and_show
  Runs-commit_and_show_broken id bad = Runs-need _ _ _ _ (Runs-commit_broken _ (Runs-respond _ bad))
