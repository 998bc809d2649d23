-- ===== src/Core/Finalize/Total.antt =====
-- The amounts that a finalized order holds, and the invariant.
use laundry_platform.Base.{
  ℕ, String, Option, none, some, Bool, true, false, ◌≡◌, refl, sym, ◌∙◌, subst, inl, inr, arith,
  find_key, find_key-update_key, update_key, eq_refl,
}
use laundry_platform.Base.Int.{ℤ, pos, ◌+ℤ◌, ◌-ℤ◌, ◌≤ℤ◌, IsInt64, +₆₄-eq, -₆₄-eq}
use laundry_platform.Db.{applied, Reply, start, exit}
use laundry_platform.Db.Runs.{Runs-answer, Runs-Keeps}
use laundry_platform.Core.Tables.{Tables, Float64, Order, order_key}
use laundry_platform.Core.Float.{FloatOps}
use laundry_platform.Core.Response.{Response, error, json, Body}
use laundry_platform.Core.Invariant.{Inv, OrdersOk-update}
use laundry_platform.Core.Finalize.{
  bill_rows, finalize_weighing, FinalizeRequest, bill_of, Bill, set_bill, billed_row, bill_checks,
  summed, active_tax_rate_value,
}
use laundry_platform.Core.Finalize.Effect.{Finalized, Answered, finalize_weighing-Runs}

abbrev pub stored_bill : String → Bill → Float64 → Tables → Tables
stored_bill id b kept t = record t { orders = update_key order_key id (billed_row b kept) t.orders }

-- What a bill that the table takes does to it.
bill_rows_applied :
    (k : Option Float64) (c : Bool) (id : String) (b : Bill) (t : Tables) (n : ℕ) (u : Tables)
    → bill_rows k c id b t ≡ applied n u
    → (c ≡ true) × ((kept : Float64) × (u ≡ stored_bill id b kept t))
unfolding bill_rows
bill_rows_applied none c id b t n u e = absurd (cc)
bill_rows_applied (some k) false id b t n u e = absurd (cc)
bill_rows_applied (some k) true id b t n u e = (refl, (k, cc))

pub set_bill_applied :
    (ops : FloatOps) (id : String) (b : Bill) (t : Tables) (n : ℕ) (u : Tables)
    → set_bill ops id b t ≡ applied n u
    → (bill_checks b ≡ true) × ((kept : Float64) × (u ≡ stored_bill id b kept t))
unfolding set_bill
set_bill_applied ops id b t n u e =
    bill_rows_applied (ops.numeric_5_2 b.tax_rate) (bill_checks b) id b t n u e

module _ (ops : FloatOps) (id : String) (req : FinalizeRequest) (t : Tables) where
  -- What a finalized order holds: the bill of its row before, and amounts that are not negative.
  pub record Billed (t' : Tables) : Type 0 where
    pub before : Order
    pub before_found : find_key order_key id t.orders ≡ some before
    pub after : Order
    pub after_found : find_key order_key id t'.orders ≡ some after
    pub subtotal : ℤ
    pub rate : Float64
    pub subtotal_summed : summed id t ≡ some subtotal
    pub rate_active : active_tax_rate_value t ≡ some rate
    pub total_stored : after.total_amount ≡ some (bill_of ops req before subtotal rate).total
    pub subtotal_stored : after.subtotal_amount ≡ some subtotal
    pub total_not_negative : pos 0 ≤ℤ (bill_of ops req before subtotal rate).total
    pub status_kept : after.status ≡ before.status

  checks_total : (b : Bill) → bill_checks b ≡ true → pos 0 ≤ℤ b.total
  unfolding bill_checks
  checks_total b e = ground arith

  find_billed :
      (b : Bill) (kept : Float64) (o : Order)
      → find_key order_key id t.orders ≡ some o
      → find_key order_key id (update_key order_key id (billed_row b kept) t.orders)
        ≡ some (billed_row b kept o)
  unfolding billed_row
  find_billed b kept o e =
      find_key-update_key order_key id id (billed_row b kept) t.orders (λ x. refl)
      ∙ rw (eq_refl id, e) refl

  Finalized-Billed : {t' : Tables} → Finalized ops id req t t' → Billed t'
  unfolding billed_row bill_of
  Finalized-Billed {t'} f =
      let b = bill_of ops req f.order f.subtotal f.rate in
      let (ok_checks, (kept, u)) = set_bill_applied ops id b t f.rows f.billed f.bill_set in
      record {
        before = f.order;
        before_found = f.order_found;
        after = billed_row b kept f.order;
        after_found =
            subst
              (λ (x : Tables). find_key order_key id x.orders ≡ some (billed_row b kept f.order))
              (sym f.committed)
              (subst
                (λ (x : Tables). find_key order_key id x.orders ≡ some (billed_row b kept f.order))
                (sym u) (find_billed b kept f.order f.order_found));
        subtotal = f.subtotal;
        rate = f.rate;
        total_stored = refl;
        subtotal_stored = refl;
        subtotal_summed = f.subtotal_summed;
        rate_active = f.rate_active;
        total_not_negative = checks_total b ok_checks;
        status_kept = refl;
      }

  -- If finalizing answers with a body, whatever the replies, the order was there, and its row now
  -- holds the sum of its items' subtotals and the bill's total, computed of that sum, the active
  -- tax rate and the row before; the total is not negative and the status is as before.
  pub finalize_weighing_bills :
      (net : ℕ → Reply) (n : ℕ) (body : Body)
      → (finalize_weighing ops id req (start net t)).0 ≡ exit (json n body)
      → Billed (finalize_weighing ops id req (start net t)).1.tables
  finalize_weighing_bills net n body e =
      Finalized-Billed (Runs-answer (finalize_weighing-Runs ops id req t) net e).1

  Finalized-Inv : (t' : Tables) → Inv t → Finalized ops id req t t' → Inv t'
  unfolding billed_row
  Finalized-Inv t' inv f =
      let b = bill_of ops req f.order f.subtotal f.rate in
      let (ok_checks, (kept, u)) = set_bill_applied ops id b t f.rows f.billed f.bill_set in
      subst Inv (sym f.committed) (
        subst Inv (sym u)
          (OrdersOk-update id (billed_row b kept) _ _ (λ x. refl) (λ x e. (refl, λ p q. q)) inv))

  -- Whatever the replies of the database, finalizing keeps the invariant of Core's tables (an order
  -- past weighing is paid, and the newest entry of its audit trail names its status).
  pub finalize_weighing-Inv :
      (net : ℕ → Reply) → Inv t → Inv (finalize_weighing ops id req (start net t)).1.tables
  finalize_weighing-Inv net inv = Runs-Keeps Inv (finalize_weighing-Runs ops id req t) keep net
    where
      keep : (r : Response) (t' : Tables) → Answered ops id req t r t' → Inv t'
      keep (error n c) t' (inl same) = subst Inv (sym same) inv
      keep (error n c) t' (inr (e, done)) = Finalized-Inv t' inv done
      keep (json n b) t' (e, done) = Finalized-Inv t' inv done

-- If the subtotal less the discount and each partial sum after it are in the range of int64, the
-- bill's total is the subtotal less the discount plus the tax and both fees, as integers.
pub bill_total_exact :
    (ops : FloatOps) (req : FinalizeRequest) (o : Order) (subtotal : ℤ) (rate : Float64)
    → let b = bill_of ops req o subtotal rate in
      let net = subtotal -ℤ o.discount_amount in
      IsInt64 net
      → IsInt64 (net +ℤ b.tax)
      → IsInt64 (net +ℤ b.tax +ℤ b.pickup_fee)
      → IsInt64 (net +ℤ b.tax +ℤ b.pickup_fee +ℤ b.delivery_fee)
      → b.total ≡ net +ℤ b.tax +ℤ b.pickup_fee +ℤ b.delivery_fee
unfolding bill_of
bill_total_exact ops req o subtotal rate h1 h2 h3 h4 =
    rw (-₆₄-eq _ _ h1, +₆₄-eq _ _ h2, +₆₄-eq _ _ h3, +₆₄-eq _ _ h4) refl
