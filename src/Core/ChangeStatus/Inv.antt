-- ===== src/Core/ChangeStatus/Inv.antt =====
-- What `change_order_status` keeps, and what a change that it commits has behind it.
use laundry_platform.Base.{
  ℕ, String, none, some, true, false, ◌≡◌, sym, ◌∙◌, subst, inl, inr, arith, find_key, str_eq,
}
use laundry_platform.Base.Text.{trim_space}
use laundry_platform.Db.{start, Reply}
use laundry_platform.Db.Runs.{Runs-Keeps}
use laundry_platform.Shared.HttpAuth.{Principal, has_any_role}
use laundry_platform.Core.OrderState.{
  Status, is_valid_transition, requires_reason, staff_roles_for, completed,
}
use laundry_platform.Core.Tables.{Tables, Order, PaymentStatus, paid, order_key}
use laundry_platform.Core.Response.{Response, error, json}
use laundry_platform.Core.Transition.{ptr}
use laundry_platform.Core.Invariant.{Inv, RowOk, is_past_weighing, moved-Inv}
use laundry_platform.Core.ChangeStatus.{change_order_status, status_guards, ChangeStatusRequest}
use laundry_platform.Core.ChangeStatus.Effect.{Changed, Answered, change_order_status-Runs}

-- What the guards let through.
pub record Allowed (from : Status) (pay : PaymentStatus) (req : ChangeStatusRequest) (p : Principal)
    : Type 0 where
  pub edge : is_valid_transition from req.to_status ≡ true
  pub reason_given :
      requires_reason req.to_status ≡ true → str_eq (trim_space req.reason) "" ≡ false
  pub paid_first : req.to_status ≡ completed → pay ≡ paid
  pub is_staff : str_eq p.type "STAFF" ≡ true
  pub role_held : has_any_role p (staff_roles_for from req.to_status) ≡ true

-- If no guard speaks against a request to change a status, the transition is one of the table's, a
-- reason is given where one is required, the order is paid where it is to be completed, and the
-- principal is staff with one of the roles of the transition.
pub status_guards-Allowed :
    (from : Status) (pay : PaymentStatus) (req : ChangeStatusRequest) (p : Principal)
    → status_guards from pay req p ≡ none
    → Allowed from pay req p
unfolding status_guards
status_guards-Allowed from pay req p h = ground arith

-- Staff cannot take an order past weighing that is not past it yet.
edge_past :
    (from to : Status)
    → is_valid_transition from to ≡ true
    → is_past_weighing to ≡ true
    → is_past_weighing from ≡ true
unfolding is_valid_transition
edge_past from to h = ground arith

Changed-Inv :
    (id : String) (req : ChangeStatusRequest) (p : Principal) (t t' : Tables)
    → Inv t
    → Changed id req p t t'
    → Inv t'
Changed-Inv id req p t t' inv c = subst Inv (sym c.committed) (
    moved-Inv id o.status req.to_status p.id (ptr req.reason) false t
      (λ x e past.
        subst (λ (y : Order). y.payment_status ≡ paid) (same x e)
          ((subst (λ q. RowOk t.order_status_history id q) c.order_found (inv id)).0
            (edge_past o.status req.to_status allowed.edge past)))
      inv)
  where
    o : Order
    o = c.order

    allowed : Allowed o.status o.payment_status req p
    allowed = status_guards-Allowed o.status o.payment_status req p c.guards_passed

    same : (x : Order) → find_key order_key id t.orders ≡ some x → o ≡ x
    same x e = let q : some o ≡ some x = sym c.order_found ∙ e in cc

-- Whatever the replies of the database, a request to change a status keeps the invariant of Core's
-- tables (an order past weighing is paid, and the newest entry of its audit trail names its
-- status).
pub change_order_status-Inv :
    (id : String) (req : ChangeStatusRequest) (p : Principal) (t : Tables) (net : ℕ → Reply)
    → Inv t
    → Inv (change_order_status id req p (start net t)).1.tables
change_order_status-Inv id req p t net inv =
    Runs-Keeps Inv (change_order_status-Runs id req p t) keep net
  where
    keep : (r : Response) (t' : Tables) → Answered id req p t r t' → Inv t'
    keep (error n c) t' (inl same) = subst Inv (sym same) inv
    keep (error n c) t' (inr (e, done)) = Changed-Inv id req p t t' inv done
    keep (json n b) t' (e, done) = Changed-Inv id req p t t' inv done
