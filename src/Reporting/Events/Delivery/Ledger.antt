-- ===== src/Reporting/Events/Delivery/Ledger.antt =====
-- The daily sales of Reporting (services/reporting/internal/handler/events.go) as a ledger: each
-- completion of an order is one entry, however often and in whatever order events are delivered.
use laundry_platform.Base.{
  ℕ, ◌+◌, String, List, [], ◌∷◌, Option, none, some, Bool, true, false, ◌||◌, ◌≡◌, refl, sym, ap,
  arith, str_eq, eq_iff, if◌then◌else◌, subst, ◌∙◌, Bool-cases, inl, inr,
}
use laundry_platform.Base.Int.{ℤ, pos, ◌+ℤ◌}
use laundry_platform.Db.{Reply, start, respond}
use laundry_platform.Db.Runs.{Runs-Keeps}
use laundry_platform.Reporting.Tables.{Tables, processed, mark}
use laundry_platform.Reporting.Sales.Lookup.{gross_of, count_of, same_day}
use laundry_platform.Reporting.Events.{
  Envelope, Payload, Verdict, handle_core_event, handle_payment_event, handle_envelope,
}
use laundry_platform.Reporting.Events.Effect.{
  Consumer, core, payments, changed, kind, dispatch, Sale, Reacts, on_created, on_weighed,
  on_changed, on_completed, on_refunded, on_refund_unknown, on_other,
}
use laundry_platform.Reporting.Events.Delivery.{
  Handled, put_back, seen_before, reacted, handle_envelope-Runs, processed-mark,
}
use laundry_platform.Reporting.Events.Delivery.Books.{
  Booked, Reacts-Booked, daily-mark, processed-kept,
}

-- One delivery: its queue, its body and the replies of the database to it.
pub record Delivery : Type 0 where
  pub queue : Consumer
  pub body : Option Envelope
  pub net : ℕ → Reply

unfoldable pub deliver : Delivery → Tables → Tables
deliver d t = elim d.queue [
  | core ↦ (handle_core_event d.body (start d.net t)).1.tables
  | payments ↦ (handle_payment_event d.body (start d.net t)).1.tables
]

-- The latest delivery stands first.
unfoldable pub deliver_all : List Delivery → Tables → Tables
deliver_all [] t = t
deliver_all (d ∷ ds) t = deliver d (deliver_all ds t)

unfoldable pub in_ledger : String → List Sale → Bool
in_ledger e [] = false
in_ledger e (s ∷ l) = str_eq e s.event_id || in_ledger e l

unfoldable pub ledger_gross : String → String → List Sale → ℤ
ledger_gross d o [] = pos 0
ledger_gross d o (s ∷ l) =
    if same_day s.date s.outlet d o then ledger_gross d o l +ℤ s.amount else ledger_gross d o l

unfoldable pub ledger_count : String → String → List Sale → ℕ
ledger_count d o [] = 0
ledger_count d o (s ∷ l) =
    if same_day s.date s.outlet d o then ledger_count d o l + 1 else ledger_count d o l

-- A sale that an event with a completion may book.
pub data Completes (d : Delivery) (s : Sale) : Type 0 where
  completes :
      (env : Envelope) (p : Payload)
      → d.body ≡ some env
      → kind d.queue env.event_type ≡ changed
      → env.payload ≡ some p
      → str_eq p.to_status "COMPLETED" ≡ true
      → s.event_id ≡ env.event_id
      → s.date ≡ env.occurred_on
      → Completes d s

-- The abstract machine: a delivery appends the sale of a completion that is not in the ledger, or
-- nothing.
pub data Posted : List Delivery → List Sale → Type 0 where
  empty : Posted [] []
  passed : (d : Delivery) (ds : List Delivery) (l : List Sale) → Posted ds l → Posted (d ∷ ds) l
  posted :
      (d : Delivery) (ds : List Delivery) (l : List Sale) (s : Sale)
      → Posted ds l
      → Completes d s
      → in_ledger s.event_id l ≡ false
      → Posted (d ∷ ds) (s ∷ l)

abbrev pub Sums : List Sale → Tables → Type 0
Sums l t =
    (d o : String)
    → (gross_of d o t.daily_outlet_sales ≡ ledger_gross d o l)
      × (count_of d o t.daily_outlet_sales ≡ ledger_count d o l)

pub record Agrees (l : List Sale) (t : Tables) : Type 0 where
  pub sums : Sums l t
  pub marked : (e : String) → in_ledger e l ≡ true → processed e t ≡ true

-- A step of the machine that a delivery takes.
abbrev Steps : Delivery → List Sale → Tables → Type 0
Steps d l t =
    (l' : List Sale) × Agrees l' t × ((ds : List Delivery) → Posted ds l → Posted (d ∷ ds) l')

stays : (d : Delivery) (l : List Sale) (t : Tables) → Agrees l t → Steps d l t
stays d l t a = (l, a, λ ds h. passed d ds l h)

not_in :
    (e : String) (l : List Sale) (t : Tables)
    → Agrees l t
    → processed e t ≡ false
    → in_ledger e l ≡ false
not_in e l t a fresh = elim (Bool-cases (in_ledger e l)) [
  | inl q ↦ absurd (let x = a.marked e q in cc)
  | inr q ↦ q
]

module _ (l : List Sale) (t u : Tables) (a : Agrees l t) (e : String) where
  unmoved-Agrees : Booked none t u → Agrees l (mark e u)
  unmoved-Agrees (rows, same) = record {
    sums = λ d o. (
      ap (gross_of d o) (daily-mark e u) ∙ (rows d o).0 ∙ (a.sums d o).0,
      ap (count_of d o) (daily-mark e u) ∙ (rows d o).1 ∙ (a.sums d o).1,
    );
    marked = λ f h. processed-kept e f t u same (a.marked f h);
  }

  added-Agrees : (s : Sale) → s.event_id ≡ e → Booked (some s) t u → Agrees (s ∷ l) (mark e u)
  unfolding ledger_gross ledger_count in_ledger
  added-Agrees s is (rows, same) = record {
    sums = λ d o. (
      ap (gross_of d o) (daily-mark e u)
          ∙ (rows d o).0
          ∙ ap (λ x. if same_day s.date s.outlet d o then x +ℤ s.amount else x) (a.sums d o).0,
      ap (count_of d o) (daily-mark e u)
          ∙ (rows d o).1
          ∙ ap (λ x. if same_day s.date s.outlet d o then x + 1 else x) (a.sums d o).1,
    );
    marked = λ f h. elim (Bool-cases (str_eq f s.event_id)) [
      | inl q ↦
          let f_is_e : e ≡ f = sym ((eq_iff f s.event_id).0 q ∙ is) in
          subst (λ x. processed x (mark e u) ≡ true) f_is_e (processed-mark e u)
      | inr q ↦ processed-kept e f t u same (a.marked f (ground (arith, h, q)))
    ];
  }

module _ (c : Consumer) (env : Envelope) (net : ℕ → Reply) where
  at : Delivery
  at = record { queue = c; body = some env; net = net }

  abbrev Completion : Option Sale → Type 0
  Completion none = Unit
  Completion (some s) = (s.event_id ≡ env.event_id) × Completes at s

  Reacts-Completion :
      (t : Tables) (o : Option Sale) (u : Tables) → Reacts c env t o u → Completion o
  unfolding at
  Reacts-Completion t o u (on_created p k e) = tt
  Reacts-Completion t o u (on_weighed p k e) = tt
  Reacts-Completion t o u (on_changed p k e f) = tt
  Reacts-Completion t o u (on_completed p s n w k e f known q) =
      (refl, completes env p refl k e f refl refl)
  Reacts-Completion t o u (on_refunded p s n m v w k e known q r) = tt
  Reacts-Completion t o u (on_refund_unknown p k e f) = tt
  Reacts-Completion t o u (on_other k) = tt

  reacted-Steps :
      (l : List Sale) (t u : Tables) (o : Option Sale)
      → Agrees l t
      → processed env.event_id t ≡ false
      → Booked o t u
      → Completion o
      → Steps at l (mark env.event_id u)
  reacted-Steps l t u none a fresh b k = stays at l _ (unmoved-Agrees l t u a env.event_id b)
  reacted-Steps l t u (some s) a fresh b (is, k) =
      let fresh_here : processed s.event_id t ≡ false = ap (λ e. processed e t) is ∙ fresh in
      (
        s ∷ l,
        added-Agrees l t u a env.event_id s is b,
        λ ds h. posted at ds l s h k (not_in s.event_id l t a fresh_here),
      )

  Handled-Steps :
      (l : List Sale) (t : Tables)
      → Agrees l t
      → (v : Verdict) (t' : Tables) → Handled c env t v t'
      → Steps at l t'
  Handled-Steps l t a v t' put_back = stays at l t a
  Handled-Steps l t a v t' (seen_before e) = stays at l t a
  Handled-Steps l t a v t' (reacted w o u fresh r) =
      reacted-Steps l t u o a fresh (Reacts-Booked c env t o u r) (Reacts-Completion t o u r)

  envelope-Steps :
      (l : List Sale) (t : Tables)
      → Agrees l t
      → Steps at l (handle_envelope (dispatch c) env (start net t)).1.tables
  envelope-Steps l t a =
      Runs-Keeps (λ x. Steps at l x) (handle_envelope-Runs env t c) (Handled-Steps l t a) net

deliver-Steps : (d : Delivery) (l : List Sale) (t : Tables) → Agrees l t → Steps d l (deliver d t)
unfolding deliver handle_core_event handle_payment_event respond start at
deliver-Steps d l t a = go d.queue d.body d.net
  where
    go :
        (c : Consumer) (b : Option Envelope) (net : ℕ → Reply)
        → let x : Delivery = record { queue = c; body = b; net = net } in Steps x l (deliver x t)
    go core none net = stays _ l t a
    go core (some env) net = envelope-Steps core env net l t a
    go payments none net = stays _ l t a
    go payments (some env) net = envelope-Steps payments env net l t a

-- From tables that agree with the empty ledger, any deliveries to both consumers, whatever the
-- replies of the database, leave tables that agree with a ledger: one that a delivery extends at
-- most by the sale of its event, if that event completes an order and is not in the ledger. The
-- amount and the number of orders of every day and outlet are the ledger's sums.
pub deliver_all-Posted :
    (t : Tables)
    → Agrees [] t
    → (ds : List Delivery) → (l : List Sale) × Posted ds l × Agrees l (deliver_all ds t)
unfolding deliver_all
deliver_all-Posted t start_empty [] = ([], empty, start_empty)
deliver_all-Posted t start_empty (d ∷ ds) =
    let (l, h, a) = deliver_all-Posted t start_empty ds in
    let (l', a', k) = deliver-Steps d l (deliver_all ds t) a in (l', k ds h, a')
