-- ===== src/Core/Weigh/Inv.antt =====
-- What weighing an item keeps, and what it does to the item.
use laundry_platform.Base.{
  ℕ, String, Option, none, some, Bool, true, false, ◌≡◌, refl, sym, ap, ◌∙◌, subst, inl, inr, arith,
  find_key, find_key-update_key, update_key, if◌then◌else◌, eq_refl,
}
use laundry_platform.Base.Int.{ℤ}
use laundry_platform.Db.{applied, Reply, start, exit}
use laundry_platform.Db.Runs.{Runs-answer, Runs-Keeps}
use laundry_platform.Shared.HttpAuth.{Principal}
use laundry_platform.Core.OrderState.{received, weighing, status_eq}
use laundry_platform.Core.Tables.{Tables, Float64, OrderItem, item_key}
use laundry_platform.Core.Float.{FloatOps}
use laundry_platform.Core.Response.{Response, error, json, Body}
use laundry_platform.Core.Invariant.{Inv, moved-Inv}
use laundry_platform.Core.Transition.Effect.{moved}
use laundry_platform.Core.Weigh.{
  weigh_item, weigh_row, WeighRow, weight_rows, set_weight, item_subtotal,
}
use laundry_platform.Core.Weigh.Effect.{Weighed, Answered, weigh_item-Runs}

abbrev pub stored_weight : String → Float64 → ℤ → Tables → Tables
stored_weight id w a t = record t {
  order_items =
      update_key item_key id (λ i. record i { actual_weight_kg = some w; subtotal = some a })
        t.order_items;
}

-- What a weight that the table takes does to it.
weight_rows_applied :
    (k : Option Float64) (id : String) (a : ℤ) (t : Tables) (n : ℕ) (u : Tables)
    → weight_rows k id a t ≡ applied n u
    → (w : Float64) × (u ≡ stored_weight id w a t)
unfolding weight_rows
weight_rows_applied none id a t n u e = absurd (cc)
weight_rows_applied (some w) id a t n u e = (w, cc)

pub set_weight_applied :
    (ops : FloatOps) (id : String) (weight : Float64) (a : ℤ) (t : Tables) (n : ℕ) (u : Tables)
    → set_weight ops id weight a t ≡ applied n u
    → (w : Float64) × (u ≡ stored_weight id w a t)
unfolding set_weight
set_weight_applied ops id weight a t n u e =
    weight_rows_applied (ops.numeric_10_3 weight) id a t n u e

moved_if-Inv :
    (b : Bool) (order_id by : String) (t : Tables)
    → Inv t
    → Inv (if b then moved order_id received weighing by none false t else t)
moved_if-Inv true order_id by t inv =
    moved-Inv order_id received weighing by none false t (λ x e past. absurd (cc)) inv
moved_if-Inv false order_id by t inv = inv

module _ (ops : FloatOps) (order_id item_id : String) (weight : Float64) (p : Principal)
    (t : Tables) where
  Weighed-Inv : (t' : Tables) → Inv t → Weighed ops order_id item_id weight p t t' → Inv t'
  Weighed-Inv t' inv w =
      let (kept, u) = set_weight_applied ops item_id weight _ t w.rows w.stored w.weight_set in
      subst Inv (sym w.committed) (
        moved_if-Inv (status_eq w.found.status received) order_id p.id w.stored
          (subst Inv (sym u) inv))

  -- Whatever the replies of the database, weighing an item keeps the invariant of Core's tables (an
  -- order past weighing is paid, and the newest entry of its audit trail names its status).
  pub weigh_item-Inv :
      (net : ℕ → Reply)
      → Inv t
      → Inv (weigh_item ops order_id item_id weight p (start net t)).1.tables
  weigh_item-Inv net inv = Runs-Keeps Inv (weigh_item-Runs ops order_id item_id weight p t) keep net
    where
      keep : (r : Response) (t' : Tables) → Answered ops order_id item_id weight p t r t' → Inv t'
      keep (error n c) t' (inl same) = subst Inv (sym same) inv
      keep (error n c) t' (inr (e, done)) = Weighed-Inv t' inv done
      keep (json n b) t' (e, done) = Weighed-Inv t' inv done

  abbrev moved_items_same : (b : Bool) (u : Tables) → Tables
  moved_items_same b u = if b then moved order_id received weighing p.id none false u else u

  items_of_moved : (b : Bool) (u : Tables) → (moved_items_same b u).order_items ≡ u.order_items
  unfolding moved
  items_of_moved true u = refl
  items_of_moved false u = refl

  row_price :
      (i : OrderItem) (r : WeighRow)
      → find_key item_key item_id t.order_items ≡ some i
      → weigh_row order_id item_id t ≡ some r
      → i.unit_price_snapshot ≡ r.unit_price
  unfolding weigh_row
  row_price i r found e = ground arith

  abbrev Priced : OrderItem → Tables → Type 0
  Priced i t' =
      (j : OrderItem) × (find_key item_key item_id t'.order_items ≡ some j)
      × (j.subtotal ≡ some (item_subtotal ops weight i.unit_price_snapshot))
      × (j.unit_price_snapshot ≡ i.unit_price_snapshot)

  Weighed-Priced :
      (i : OrderItem) (t' : Tables)
      → find_key item_key item_id t.order_items ≡ some i
      → Weighed ops order_id item_id weight p t t'
      → Priced i t'
  Weighed-Priced i t' found w =
      let a = item_subtotal ops weight w.found.unit_price in
      let (kept, u) = set_weight_applied ops item_id weight a t w.rows w.stored w.weight_set in
      let set = λ (x : OrderItem). record x { actual_weight_kg = some kept; subtotal = some a } in
      let same_items : t'.order_items ≡ update_key item_key item_id set t.order_items =
        ap (λ (x : Tables). x.order_items) w.committed
        ∙ items_of_moved (status_eq w.found.status received) w.stored
        ∙ ap (λ (x : Tables). x.order_items) u in
      (
        set i,
        rw same_items (
            find_key-update_key item_key item_id item_id set t.order_items (λ x. refl)
            ∙ rw (eq_refl item_id, found) refl),
        ap (λ price. some (item_subtotal ops weight price))
            (sym (row_price i w.found found w.row_found)),
        refl,
      )

  -- If weighing answers with a body, whatever the replies, the item that was there holds the
  -- subtotal of the measured weight at the price that was fixed when the order was made, and that
  -- price is as before.
  pub weigh_item_prices :
      (net : ℕ → Reply) (n : ℕ) (body : Body) (i : OrderItem)
      → find_key item_key item_id t.order_items ≡ some i
      → (weigh_item ops order_id item_id weight p (start net t)).0 ≡ exit (json n body)
      → Priced i (weigh_item ops order_id item_id weight p (start net t)).1.tables
  weigh_item_prices net n body i found e =
      Weighed-Priced i _ found
        (Runs-answer (weigh_item-Runs ops order_id item_id weight p t) net e).1
