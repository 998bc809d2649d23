-- ===== src/Reporting/Events/Delivery/Books.antt =====
-- What a projection (services/reporting/internal/handler/events.go) books on the days' rows.
use laundry_platform.Base.{
  ℕ, ◌+◌, String, List, Option, none, some, true, ◌≡◌, refl, sym, inl, inr, ap, Bool-cases, str_eq,
  arith, if◌then◌else◌, exists, find_key, is_some, ◌∙◌,
}
use laundry_platform.Base.Int.{ℤ, ◌+ℤ◌}
use laundry_platform.Db.{applied}
use laundry_platform.Reporting.Tables.{Tables, DailySales, processed, mark, summary_key}
use laundry_platform.Reporting.Sales.Lookup.{
  gross_of, count_of, same_day, gross_of-add_sale, count_of-add_sale, of-add_refunded,
}
use laundry_platform.Reporting.Events.{
  Envelope, Payload, checked, insert_sale, insert_refund, update_refunded, insert_summary,
  update_summary,
}
use laundry_platform.Reporting.Events.Effect.{
  Consumer, Sale, Reacts, on_created, on_weighed, on_changed, on_completed, on_refunded,
  on_refund_unknown, on_other, sale_of, completed_set, status_set,
}

-- The same amounts and counts on every day.
abbrev pub Unmoved : List DailySales → List DailySales → Type 0
Unmoved xs ys =
    (d o : String) → (gross_of d o ys ≡ gross_of d o xs) × (count_of d o ys ≡ count_of d o xs)

-- One sale more.
abbrev pub Added : Sale → List DailySales → List DailySales → Type 0
Added s xs ys =
    (d o : String)
    → (gross_of d o ys
        ≡ (if same_day s.date s.outlet d o then gross_of d o xs +ℤ s.amount else gross_of d o xs))
      × (count_of d o ys
          ≡ (if same_day s.date s.outlet d o then count_of d o xs + 1 else count_of d o xs))

abbrev pub Booked : Option Sale → Tables → Tables → Type 0
Booked none t u =
    Unmoved t.daily_outlet_sales u.daily_outlet_sales × (u.processed_events ≡ t.processed_events)
Booked (some s) t u =
    Added s t.daily_outlet_sales u.daily_outlet_sales × (u.processed_events ≡ t.processed_events)

-- What a statement that came through made of the rows.
checked-applied :
    {A : Type 0} (f : A → Tables) (o : Option A) (n : ℕ) (u : Tables)
    → checked f o ≡ applied n u
    → (a : A) × (o ≡ some a) × (f a ≡ u)
checked-applied f none n u e = absurd (cc)
checked-applied f (some a) n u e = let q : f a ≡ u = cc in (a, refl, q)

sale-Booked :
    (env : Envelope) (p : Payload) (s : Sale) (t : Tables) (n : ℕ) (u : Tables)
    → insert_sale s.date s.outlet s.amount (completed_set env p (status_set p t)) ≡ applied n u
    → Booked (some s) t u
unfolding insert_sale update_summary
sale-Booked env p s t n u e =
    let (rows, added, q) = checked-applied _ _ n u e in
    (
      λ d o. (
        ap (λ x. gross_of d o x.daily_outlet_sales) (sym q)
            ∙ gross_of-add_sale s.date s.outlet d o s.amount t.daily_outlet_sales rows added,
        ap (λ x. count_of d o x.daily_outlet_sales) (sym q)
            ∙ count_of-add_sale s.date s.outlet d o s.amount t.daily_outlet_sales rows added,
      ),
      ap (λ x. x.processed_events) (sym q),
    )

refund-Booked :
    (day : String) (outlet : String) (amount : ℤ) (t v u : Tables) (n m : ℕ)
    → insert_refund day outlet amount t ≡ applied n v
    → update_refunded day outlet amount v ≡ applied m u
    → Booked none t u
unfolding insert_refund update_refunded
refund-Booked day outlet amount t v u n m e f =
    let (rs, summed, p) = checked-applied _ _ n v e in
    let (rows, added, q) = checked-applied _ _ m u f in
    let same : v.daily_outlet_sales ≡ t.daily_outlet_sales =
      ap (λ x. x.daily_outlet_sales) (sym p) in
    (
      λ d o.
          let (g, c) = of-add_refunded day outlet d o amount v.daily_outlet_sales rows added in
          (
            ap (λ x. gross_of d o x.daily_outlet_sales) (sym q) ∙ g ∙ ap (gross_of d o) same,
            ap (λ x. count_of d o x.daily_outlet_sales) (sym q) ∙ c ∙ ap (count_of d o) same,
          ),
      ap (λ x. x.processed_events) (sym q) ∙ ap (λ x. x.processed_events) (sym p),
    )

created-Booked :
    (env : Envelope) (p : Payload) (t : Tables) → Booked none t (insert_summary env p t)
unfolding insert_summary
created-Booked env p t =
    elim (Bool-cases (is_some (find_key summary_key p.order_id t.order_summary))) [
      | inl e ↦ rw e (λ d o. (refl, refl), refl)
      | inr e ↦ rw e (λ d o. (refl, refl), refl)
    ]

pub Reacts-Booked :
    (c : Consumer) (env : Envelope) (t : Tables) (o : Option Sale) (u : Tables)
    → Reacts c env t o u
    → Booked o t u
unfolding update_summary
Reacts-Booked c env t o u (on_created p k e) = created-Booked env p t
Reacts-Booked c env t o u (on_weighed p k e) = (λ d o. (refl, refl), refl)
Reacts-Booked c env t o u (on_changed p k e f) = (λ d o. (refl, refl), refl)
Reacts-Booked c env t o u (on_completed p s n w k e f known q) =
    sale-Booked env p (sale_of env s) t n u q
Reacts-Booked c env t o u (on_refunded p s n m v w k e known q r) =
    refund-Booked _ _ _ t v u n m q r
Reacts-Booked c env t o u (on_refund_unknown p k e f) = (λ d o. (refl, refl), refl)
Reacts-Booked c env t o u (on_other k) = (λ d o. (refl, refl), refl)

-- The mark leaves the rows as they are.
pub daily-mark : (e : String) (t : Tables) → (mark e t).daily_outlet_sales ≡ t.daily_outlet_sales
unfolding mark
daily-mark e t = elim (Bool-cases (processed e t)) [ inl q ↦ rw q refl | inr q ↦ rw q refl ]

pub mark-Booked :
    (e : String) (o : Option Sale) (t u : Tables) → Booked o t u → elim o as (λ x. Type 0) [
      | none ↦ Unmoved t.daily_outlet_sales (mark e u).daily_outlet_sales
      | some s ↦ Added s t.daily_outlet_sales (mark e u).daily_outlet_sales
    ]
mark-Booked e none t u h = rw (daily-mark e u) (h.0)
mark-Booked e (some s) t u h = rw (daily-mark e u) (h.0)

pub processed-kept :
    (e f : String) (t u : Tables)
    → u.processed_events ≡ t.processed_events
    → processed f t ≡ true
    → processed f (mark e u) ≡ true
unfolding mark processed
processed-kept e f t u same h =
    let known : exists (str_eq f) u.processed_events ≡ true = ap (exists (str_eq f)) same ∙ h in
    elim (Bool-cases (exists (str_eq e) u.processed_events)) [
      | inl q ↦ rw q known
      | inr q ↦ rw q (ground (arith, known))
    ]
