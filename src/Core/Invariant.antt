-- ===== src/Core/Invariant.antt =====
-- What holds of Core's committed tables between two requests: whoever is past weighing has paid,
-- and the audit trail (`order_status_history`) ends at the status that the order has.
use laundry_platform.Base.{
  String, List, [], ◌∷◌, Option, none, some, Bool, true, false, ◌≡◌, refl, arith, str_eq, eq_iff,
  find_key, update_key, find_key-update_key, if◌then◌else◌, Bool-cases, inl, inr, subst, sym, ap,
}
use mathlib.Core.Option
use laundry_platform.Core.OrderState.{
  Status, washing, drying, ironing, packing, ready, picked_up, delivered, completed,
}
use laundry_platform.Core.Tables.{Tables, Order, HistoryRow, paid, order_key}
use laundry_platform.Core.Transition.Effect.{moved}

-- The statuses that an order has once washing has begun.
abbrev pub is_past_weighing : Status → Bool
is_past_weighing washing = true
is_past_weighing drying = true
is_past_weighing ironing = true
is_past_weighing packing = true
is_past_weighing ready = true
is_past_weighing picked_up = true
is_past_weighing delivered = true
is_past_weighing completed = true
is_past_weighing _ = false

-- The newest status that the audit trail has for an order.
unfoldable pub latest : String → List HistoryRow → Option Status
latest id [] = none
latest id (h ∷ hs) = if str_eq h.order_id id then some h.to_status else latest id hs

abbrev pub RowOk : List HistoryRow → String → Option Order → Type 0
RowOk hs id none = Unit
RowOk hs id (some o) =
    (is_past_weighing o.status ≡ true → o.payment_status ≡ paid) × (latest id hs ≡ some o.status)

abbrev pub OrdersOk : List HistoryRow → List Order → Type 0
OrdersOk hs os = (id : String) → RowOk hs id (find_key order_key id os)

abbrev pub Inv : Tables → Type 0
Inv t = OrdersOk t.order_status_history t.orders

-- A row whose payment status or amounts change, and whose status stays.
abbrev KeepsRow : (Order → Order) → Order → Type 0
KeepsRow f x =
    ((f x).status ≡ x.status)
    × (is_past_weighing x.status ≡ true → x.payment_status ≡ paid → (f x).payment_status ≡ paid)

RowOk-if :
    (b : Bool) (j : String) (hs : List HistoryRow) (f : Order → Order) (o : Option Order)
    → ((x : Order) → o ≡ some x → KeepsRow f x)
    → RowOk hs j o
    → RowOk hs j (if b then Option.map f o else o)
RowOk-if false j hs f o keep h = h
RowOk-if true j hs f none keep h = tt
RowOk-if true j hs f (some x) keep h = ground (arith, keep x refl)

-- An update of one order that keeps its status and does not take its payment back.
pub OrdersOk-update :
    (id : String) (f : Order → Order) (hs : List HistoryRow) (os : List Order)
    → ((x : Order) → (f x).id ≡ x.id)
    → ((x : Order) → find_key order_key id os ≡ some x → KeepsRow f x)
    → OrdersOk hs os
    → OrdersOk hs (update_key order_key id f os)
OrdersOk-update id f hs os same keep h j =
    rw (find_key-update_key order_key id j f os same) (elim (Bool-cases (str_eq id j)) [
      | inl e ↦
          let p : id ≡ j = (eq_iff id j).0 e in
          RowOk-if (str_eq id j) j hs f (find_key order_key j os)
            (λ x q. keep x (subst (λ k. find_key order_key k os ≡ some x) (sym p) q)) (h j)
      | inr e ↦ rw e (h j)
    ])

RowOk-moved :
    (b : Bool) (id j : String) (to : Status) (h : HistoryRow) (hs : List HistoryRow)
    (o : Option Order)
    → str_eq id j ≡ b
    → h.order_id ≡ id
    → h.to_status ≡ to
    → ((x : Order) → b ≡ true → o ≡ some x → is_past_weighing to ≡ true → x.payment_status ≡ paid)
    → (b ≡ false → RowOk hs j o)
    → RowOk (h ∷ hs) j (if b then Option.map (λ (x : Order). record x { status = to }) o else o)
unfolding latest
RowOk-moved true id j to h hs none e p q first k = tt
RowOk-moved false id j to h hs none e p q first k = tt
RowOk-moved true id j to h hs (some x) e p q first k =
    ((λ past. first x refl refl past), rw (p, e) (ap some q))
RowOk-moved false id j to h hs (some x) e p q first k = ((k refl).0, rw (p, e) (k refl).1)

-- A transition makes one order meet the invariant, if whoever it takes past weighing has paid.
pub moved-Inv_others :
    (id : String) (from to : Status) (by : String) (reason : Option String) (override : Bool)
    (t : Tables)
    → ((x : Order)
        → find_key order_key id t.orders ≡ some x
        → is_past_weighing to ≡ true
        → x.payment_status ≡ paid)
    → ((j : String)
        → str_eq id j ≡ false
        → RowOk t.order_status_history j (find_key order_key j t.orders))
    → Inv (moved id from to by reason override t)
unfolding moved
moved-Inv_others id from to by reason override t first others j =
    rw (find_key-update_key order_key id j (λ x. record x { status = to }) t.orders (λ x. refl)) (
      RowOk-moved (str_eq id j) id j to _ t.order_status_history _ refl refl refl
        (λ x e q.
          first x (subst (λ k. find_key order_key k t.orders ≡ some x) (sym ((eq_iff id j).0 e)) q))
        (others j))

pub moved-Inv :
    (id : String) (from to : Status) (by : String) (reason : Option String) (override : Bool)
    (t : Tables)
    → ((x : Order)
        → find_key order_key id t.orders ≡ some x
        → is_past_weighing to ≡ true
        → x.payment_status ≡ paid)
    → Inv t
    → Inv (moved id from to by reason override t)
moved-Inv id from to by reason override t first inv =
    moved-Inv_others id from to by reason override t first (λ j e. inv j)
