-- ===== src/Core/Fetch.antt =====
-- services/core/internal/handler/orders.go, `fetchOrder`: an order with its items.
pub mod Reads
use laundry_platform.Base.{String, List, Option, none, some, Bool, str_eq, find_key, select}
use laundry_platform.Db.{
  M, Fetch, row, no_rows, unreadable, ◌>>=◌, ◌>>◌, query_pool, pure, respond, row_or, need, commit,
}
use laundry_platform.Core.Tables.{Order, OrderItem, Tables, order_key}
use laundry_platform.Core.Response.{Handler, OrderView, Response, json, internal_error, order_body}

unfoldable pub items_of : String → Tables → List OrderItem
items_of id t = select (λ i. str_eq i.order_id id) t.order_items

fetch_items : Order → Handler (Fetch OrderView)
unfolding items_of
fetch_items o = do
  rows ← query_pool (λ t. some (items_of o.id t))
  pure (elim rows [
    | row items ↦ row (record { order = o; items = items })
    | no_rows ↦ unreadable
    | unreadable ↦ unreadable
  ])

unfoldable pub fetch_order : String → Handler (Fetch OrderView)
unfolding fetch_items
fetch_order id = do
  found ← query_pool (λ t. find_key order_key id t.orders)
  elim found [ row o ↦ fetch_items o | no_rows ↦ pure no_rows | unreadable ↦ pure unreadable ]

-- The end that the order handlers share: `tx.Commit`, `fetchOrder`, and the order as JSON.
unfoldable pub commit_and_show : String → Handler Response
commit_and_show id = do
  need internal_error commit
  out ← fetch_order id
  view ← row_or internal_error internal_error out
  respond (json 200 (order_body view))
