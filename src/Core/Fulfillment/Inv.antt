-- ===== src/Core/Fulfillment/Inv.antt =====
-- Pickups and deliveries keep the invariant of Core's tables.
use laundry_platform.Base.{
  ℕ, String, Option, none, some, Bool, true, false, ◌≡◌, refl, sym, ◌∙◌, subst, ◌⊎◌, inl, inr,
  arith, find_key, str_eq, if◌then◌else◌,
}
use laundry_platform.Db.{Reply, start}
use laundry_platform.Db.Runs.{Runs-Keeps}
use laundry_platform.Shared.HttpAuth.{Principal}
use laundry_platform.Core.OrderState.{Status, created, received, ready, delivered, status_eq}
use laundry_platform.Core.Tables.{Tables, Order, paid, order_key}
use laundry_platform.Core.Response.{Response, error, json}
use laundry_platform.Core.Transition.Effect.{moved}
use laundry_platform.Core.Invariant.{Inv, RowOk, is_past_weighing, moved-Inv}
use laundry_platform.Core.Fulfillment.{
  Table, pickups, deliveries, UpdateRequest, set_progress, update_fulfillment, update_pickup,
  update_delivery,
}
use laundry_platform.Core.Fulfillment.Effect.{
  Updated, Answered, progressed, update_fulfillment-Runs,
}

set_progress-Inv :
    (table : Table) (id : String) (req : UpdateRequest) (at : Option ℕ) (t : Tables)
    → Inv t
    → Inv (set_progress table id req at t)
unfolding set_progress
set_progress-Inv pickups id req at t inv = inv
set_progress-Inv deliveries id req at t inv = inv

-- A status that one other status equals as the handlers compare them.
same_past :
    (s from : Status)
    → status_eq s from ≡ true
    → is_past_weighing from ≡ true
    → is_past_weighing s ≡ true
same_past s from e h = ground arith

module _ (table : Table) (from to : Status)
    (along : is_past_weighing to ≡ true → is_past_weighing from ≡ true) (id : String)
    (req : UpdateRequest) (now : ℕ) (p : Principal) (t : Tables) (inv : Inv t) where
  u : Tables
  u = progressed table from to id req now p t

  u-Inv : Inv u
  unfolding u
  u-Inv = set_progress-Inv table id req _ t inv

  moved_if-Inv :
      (order_id : String) (o : Order) (b : Bool)
      → find_key order_key order_id u.orders ≡ some o
      → status_eq o.status from ≡ b
      → Inv (if b then moved order_id from to p.id none false u else u)
  moved_if-Inv order_id o false found e = u-Inv
  moved_if-Inv order_id o true found e =
      moved-Inv order_id from to p.id none false u
        (λ x q past.
          subst (λ (y : Order). y.payment_status ≡ paid) (same x q)
            ((subst (λ r. RowOk u.order_status_history order_id r) found (u-Inv order_id)).0
              (same_past o.status from e (along past))))
        u-Inv
    where
      same : (x : Order) → find_key order_key order_id u.orders ≡ some x → o ≡ x
      same x q = let z : some o ≡ some x = sym found ∙ q in cc

  Updated-Inv : (t' : Tables) → Updated table from to id req now p t t' → Inv t'
  unfolding u
  Updated-Inv t' w = go w.outcome
    where
      go :
          (str_eq req.status "COMPLETED" ≡ false) × (t' ≡ u)
            ⊎ ((o : Order) × (str_eq req.status "COMPLETED" ≡ true)
                × (find_key order_key w.request.order_id u.orders ≡ some o)
                × (t' ≡ (
                    if status_eq o.status from
                    then moved w.request.order_id from to p.id none false u
                    else u)))
          → Inv t'
      go (inl (e, same)) = subst Inv (sym same) u-Inv
      go (inr (o, e, found, same)) =
          subst Inv (sym same)
            (moved_if-Inv w.request.order_id o (status_eq o.status from) found refl)

  update_fulfillment-Inv :
      (net : ℕ → Reply) → Inv (update_fulfillment table from to id req now p (start net t)).1.tables
  update_fulfillment-Inv net =
      Runs-Keeps Inv (update_fulfillment-Runs table from to id req now p t) keep net
    where
      keep : (r : Response) (t' : Tables) → Answered table from to id req now p t r t' → Inv t'
      keep (error n c) t' (inl same) = subst Inv (sym same) inv
      keep (error n c) t' (inr (e, done)) = Updated-Inv t' done
      keep (json n b) t' (e, done) = Updated-Inv t' done

-- Whatever the replies of the database, the progress of a pickup and of a delivery keep the
-- invariant of Core's tables (an order past weighing is paid, and the newest entry of its audit
-- trail names its status).
pub update_pickup_or_delivery-Inv :
    (id : String) (req : UpdateRequest) (now : ℕ) (p : Principal) (t : Tables) (net : ℕ → Reply)
    → Inv t
    → Inv (update_pickup id req now p (start net t)).1.tables
      × Inv (update_delivery id req now p (start net t)).1.tables
unfolding update_pickup update_delivery
update_pickup_or_delivery-Inv id req now p t net inv = (
  update_fulfillment-Inv pickups created received (λ e. absurd (cc)) id req now p t inv net,
  update_fulfillment-Inv deliveries ready delivered (λ e. refl) id req now p t inv net,
)
