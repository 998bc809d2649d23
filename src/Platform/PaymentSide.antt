-- ===== src/Platform/PaymentSide.antt =====
-- Payment announces `payment.paid` for an order only with a payment of it, which is never lost
-- again: it stays paid, or is refunded.
pub mod Requests
use laundry_platform.Base.{
  ℕ, String, List, [], ◌∷◌, ◌++◌, Option, none, some, Bool, true, false, ◌&&◌, ◌||◌, ◌≡◌, ◌≢◌, refl,
  sym, ap, ◌∙◌, subst, inl, inr, arith, exists, exists-append, exists-update_key,
  exists-update_key_found, find_key, update_key, str_eq, eq_refl, if◌then◌else◌,
}
use laundry_platform.Payment.Tables.{
  Tables, Payment, Status, paid, refunded, OutboxRow, payment_key, announce,
}
use laundry_platform.Platform.{InOutbox, newest, earlier}

abbrev pub is_settled : Status → Bool
is_settled paid = true
is_settled refunded = true
is_settled _ = false

-- A payment of the order that was paid.
abbrev pub settles : String → Payment → Bool
settles order_id p = str_eq p.order_id order_id && is_settled p.status

unfoldable pub has_settled : String → List Payment → Bool
has_settled order_id ps = exists (settles order_id) ps

-- Each announcement has its payment.
abbrev pub Announced : Tables → Type 0
Announced t =
    (e : OutboxRow)
    → InOutbox e t.outbox_events
    → e.event_type ≡ "payment.paid"
    → has_settled e.order_id t.payments ≡ true

-- So has each order that a property names.
abbrev pub Backed : (String → Type 0) → Tables → Type 0
Backed K t = ((x : String) → K x → has_settled x t.payments ≡ true) × Announced t

-- No order loses its payment.
abbrev pub Grows : List Payment → List Payment → Type 0
Grows ps qs = (order_id : String) → has_settled order_id ps ≡ true → has_settled order_id qs ≡ true

pub Grows-append : (ps : List Payment) (p : Payment) → Grows ps (ps ++ p ∷ [])
unfolding has_settled
Grows-append ps p o h = ground (arith, exists-append (settles o) ps p, h)

pub has_settled-append :
    (ps : List Payment) (p : Payment)
    → is_settled p.status ≡ true
    → has_settled p.order_id (ps ++ p ∷ []) ≡ true
unfolding has_settled
has_settled-append ps p h =
    ground (arith, exists-append (settles p.order_id) ps p, eq_refl p.order_id, h)

pub Grows-update :
    (k : String) (f : Payment → Payment) (ps : List Payment)
    → ((x : Payment) (o : String)
        → find_key payment_key k ps ≡ some x
        → settles o x ≡ true
        → settles o (f x) ≡ true)
    → Grows ps (update_key payment_key k f ps)
unfolding has_settled
Grows-update k f ps keeps o h =
    exists-update_key payment_key (settles o) k f ps (λ x found. keeps x o found) h

pub has_settled-update :
    (k : String) (f : Payment → Payment) (ps : List Payment) (x : Payment)
    → find_key payment_key k ps ≡ some x
    → (f x).order_id ≡ x.order_id
    → is_settled (f x).status ≡ true
    → has_settled x.order_id (update_key payment_key k f ps) ≡ true
unfolding has_settled
has_settled-update k f ps x found same h =
    exists-update_key_found payment_key (settles x.order_id) k f ps x found
      (rw (same, eq_refl x.order_id, h) refl)

-- The rows may grow, and an event may be announced that has its payment.
pub Backed-grow :
    (K : String → Type 0) (t t' : Tables)
    → t'.outbox_events ≡ t.outbox_events
    → Grows t.payments t'.payments
    → Backed K t
    → Backed K t'
Backed-grow K t t' same grows (named, events) = (
  λ x k. grows x (named x k),
  λ e stands is_paid. grows e.order_id (events e (subst (InOutbox e) same stands) is_paid),
)

pub Backed-announce :
    (K : String → Type 0) (e : OutboxRow) (t : Tables)
    → (e.event_type ≡ "payment.paid" → has_settled e.order_id t.payments ≡ true)
    → Backed K t
    → Backed K (announce e t)
Backed-announce K e t covered (named, events) = (named, announced)
  where
    announced : Announced (announce e t)
    announced d (newest es) is_paid = covered is_paid
    announced d (earlier c es stands) is_paid = events d stands is_paid
