-- ===== src/Reporting/Sales/Lookup.antt =====
-- What a day's row of an outlet says after each statement (services/reporting/internal/handler/
-- events.go).
use laundry_platform.Base.{
  ℕ, ◌+◌, String, List, [], ◌∷◌, some, Bool, true, false, ◌&&◌, ◌≡◌, refl, arith, str_eq, eq_iff,
  if◌then◌else◌,
}
use laundry_platform.Base.Int.{ℤ, pos, ◌+ℤ◌}
use laundry_platform.Reporting.Tables.{DailySales}
use laundry_platform.Reporting.Sales.{is_at, new_sales, more_sales, add_sale, add_refunded}

-- A row that is not there has neither orders nor an amount.
unfoldable pub gross_of : String → String → List DailySales → ℤ
unfolding is_at
gross_of date outlet [] = pos 0
gross_of date outlet (x ∷ xs) =
    if is_at date outlet x then x.gross_amount else gross_of date outlet xs

unfoldable pub count_of : String → String → List DailySales → ℕ
unfolding is_at
count_of date outlet [] = 0
count_of date outlet (x ∷ xs) =
    if is_at date outlet x then x.order_count else count_of date outlet xs

unfoldable pub same_day : String → String → String → String → Bool
same_day date outlet date' outlet' = str_eq date date' && str_eq outlet outlet'

pub pos_zero : (a : ℤ) → pos 0 +ℤ a ≡ a
unfolding ◌+ℤ◌
pos_zero a = ground arith

-- A row of one day is of another only if the days are one.
here :
    (date outlet d o : String) (x : DailySales)
    → is_at date outlet x ≡ true
    → is_at d o x ≡ same_day date outlet d o
unfolding is_at same_day
here date outlet d o x e = ground (
  arith,
  eq_iff x.sales_date date,
  eq_iff x.outlet_id outlet,
  eq_iff x.sales_date d,
  eq_iff x.outlet_id o,
  eq_iff date d,
  eq_iff outlet o,
)

apart :
    (date outlet d o : String) (x : DailySales)
    → is_at date outlet x ≡ false
    → is_at d o x ≡ true
    → same_day date outlet d o ≡ false
unfolding is_at same_day
apart date outlet d o x e f = ground (
  arith,
  eq_iff x.sales_date date,
  eq_iff x.outlet_id outlet,
  eq_iff x.sales_date d,
  eq_iff x.outlet_id o,
  eq_iff date d,
  eq_iff outlet o,
)

at_new :
    (date outlet d o : String) (amount : ℤ)
    → is_at d o (new_sales date outlet amount) ≡ same_day date outlet d o
unfolding is_at same_day
at_new date outlet d o amount = refl

at_more :
    (d o : String) (amount : ℤ) (x : DailySales) → is_at d o (more_sales amount x) ≡ is_at d o x
unfolding is_at
at_more d o amount x = refl

at_refunded :
    (d o : String) (amount : ℤ) (x : DailySales)
    → is_at d o (record x { refunded_amount = amount }) ≡ is_at d o x
unfolding is_at
at_refunded d o amount x = refl

pub gross_of-add_sale :
    (date outlet d o : String) (amount : ℤ) (xs ys : List DailySales)
    → add_sale date outlet amount xs ≡ some ys
    → gross_of d o ys
      ≡ (if same_day date outlet d o then gross_of d o xs +ℤ amount else gross_of d o xs)
unfolding add_sale gross_of
gross_of-add_sale date outlet d o amount [] ys e =
    ground (arith, pos_zero amount, at_new date outlet d o amount)
gross_of-add_sale date outlet d o amount (x ∷ xs) [] e = ground arith
gross_of-add_sale date outlet d o amount (x ∷ xs) (y ∷ ys) e = ground (
  arith,
  at_more d o amount x,
  here date outlet d o x,
  apart date outlet d o x,
  gross_of-add_sale date outlet d o amount xs ys,
)

pub count_of-add_sale :
    (date outlet d o : String) (amount : ℤ) (xs ys : List DailySales)
    → add_sale date outlet amount xs ≡ some ys
    → count_of d o ys ≡ (if same_day date outlet d o then count_of d o xs + 1 else count_of d o xs)
unfolding add_sale count_of
count_of-add_sale date outlet d o amount [] ys e = ground (arith, at_new date outlet d o amount)
count_of-add_sale date outlet d o amount (x ∷ xs) [] e = ground arith
count_of-add_sale date outlet d o amount (x ∷ xs) (y ∷ ys) e = ground (
  arith,
  at_more d o amount x,
  here date outlet d o x,
  apart date outlet d o x,
  count_of-add_sale date outlet d o amount xs ys,
)

pub of-add_refunded :
    (date outlet d o : String) (amount : ℤ) (xs ys : List DailySales)
    → add_refunded date outlet amount xs ≡ some ys
    → (gross_of d o ys ≡ gross_of d o xs) × (count_of d o ys ≡ count_of d o xs)
unfolding add_refunded gross_of count_of
of-add_refunded date outlet d o amount [] ys e = ground arith
of-add_refunded date outlet d o amount (x ∷ xs) [] e = ground arith
of-add_refunded date outlet d o amount (x ∷ xs) (y ∷ ys) e = ground (
  arith,
  at_refunded d o (x.refunded_amount +ℤ amount) x,
  of-add_refunded date outlet d o amount xs ys,
)
