-- ===== src/Core/CreateOrder/Inv.antt =====
-- `create_order` keeps the invariant of Core's tables.
use laundry_platform.Base.{
  ℕ, String, List, [], ◌∷◌, ◌++◌, none, some, Bool, true, false, ◌≡◌, refl, sym, ap, subst, inl,
  inr, arith, find_key, find_key-append, find_key-append_some, Bool-cases, Option-cases, str_eq,
  eq_iff, if◌then◌else◌,
}
use laundry_platform.Db.{Reply, start}
use laundry_platform.Db.Runs.{Runs-Keeps}
use laundry_platform.Core.OrderState.{Status, created}
use laundry_platform.Core.Tables.{Tables, Order, HistoryRow, order_key}
use laundry_platform.Core.Float.{FloatOps}
use laundry_platform.Core.Response.{Response, error, json}
use laundry_platform.Core.Invariant.{Inv, OrdersOk, RowOk, latest, is_past_weighing}
use laundry_platform.Core.Create.{CreateRequest, Fresh}
use laundry_platform.Core.CreateOrder.{create_order}
use laundry_platform.Core.CreateOrder.Rules.{kept, first_row}
use laundry_platform.Core.CreateOrder.Effect as CreateOrderEffect
use laundry_platform.Core.CreateOrder.Effect.{create_order-Runs}

created_not_past : (s : Status) → s ≡ created → is_past_weighing s ≡ true → ⊥
created_not_past s e p = ground (arith, e, p)

first_entry :
    (o : Order) (hs : List HistoryRow) (j : String) (b : Bool)
    → str_eq o.id j ≡ b
    → o.status ≡ created
    → RowOk (first_row o.id ∷ hs) j (if b then some o else none)
unfolding latest
first_entry o hs j true e new =
    ((λ past. absurd (created_not_past o.status new past)), rw e (ap some (sym new)))
first_entry o hs j false e new = tt

older :
    (o : Order) (hs : List HistoryRow) (j : String) (x : Order)
    → str_eq o.id j ≡ false
    → RowOk hs j (some x)
    → RowOk (first_row o.id ∷ hs) j (some x)
unfolding latest
older o hs j x e h = (h.0, rw e h.1)

-- A new order waits for nothing that the invariant asks for.
OrdersOk-append :
    (o : Order) (hs : List HistoryRow) (os : List Order)
    → find_key order_key o.id os ≡ none
    → o.status ≡ created
    → OrdersOk hs os
    → OrdersOk (first_row o.id ∷ hs) (os ++ o ∷ [])
OrdersOk-append o hs os free new h j = elim (Option-cases (find_key order_key j os)) [
  | inl e ↦ rw (find_key-append order_key j os o e) (first_entry o hs j (str_eq o.id j) refl new)
  | inr (x, e) ↦
      rw (find_key-append_some order_key j os o x e)
        (older o hs j x (other x e) (subst (RowOk hs j) e (h j)))
]
  where
    other : (x : Order) → find_key order_key j os ≡ some x → str_eq o.id j ≡ false
    other x e = elim (Bool-cases (str_eq o.id j)) [
      | inl q ↦
          let z : find_key order_key j os ≡ none =
            subst (λ k. find_key order_key k os ≡ none) ((eq_iff o.id j).0 q) free in
          absurd (cc)
      | inr q ↦ q
    ]

-- Whatever the replies of the database, a request to create an order keeps the invariant of Core's
-- tables (an order past weighing is paid, and the newest entry of its audit trail names its
-- status).
pub create_order-Inv :
    (ops : FloatOps) (req : CreateRequest) (fresh : Fresh) (t : Tables) (net : ℕ → Reply)
    → Inv t
    → Inv (create_order ops req fresh (start net t)).1.tables
create_order-Inv ops req fresh t net inv =
    Runs-Keeps Inv (create_order-Runs ops req fresh t) keep net
  where
    as_before : (t' : Tables) → kept t' ≡ kept t → Inv t'
    as_before t' same = subst (λ k. OrdersOk k.1 k.0) (sym same) inv

    Created-Inv : (t' : Tables) → CreateOrderEffect.Created ops req fresh t t' → Inv t'
    Created-Inv t' w =
        subst (λ k. OrdersOk k.1 k.0) (sym w.committed)
          (OrdersOk-append w.order t.order_status_history t.orders w.new_id w.starts inv)

    keep : (r : Response) (t' : Tables) → CreateOrderEffect.Answered ops req fresh t r t' → Inv t'
    keep (error n c) t' (inl same) = as_before t' same
    keep (error n c) t' (inr (e, w)) = Created-Inv t' w
    keep (json n b) t' (e, w) = Created-Inv t' w
