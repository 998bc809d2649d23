-- ===== src/Core/ChangeStatus.antt =====
-- services/core/internal/handler/orders.go, `ChangeOrderStatus`.
pub mod Effect
pub mod Inv
pub mod Calm
pub mod Pipeline
pub mod Policy
use laundry_platform.Base.{
  ℕ, String, Option, none, some, Bool, true, false, ◌&&◌, ◌||◌, not, str_eq, find_key,
  if◌then◌else◌,
}
use laundry_platform.Base.Text.{trim_space}
use laundry_platform.Db.{M, ◌>>=◌, ◌>>◌, respond_some, row_or, query_pool, begin_tx, need}
use laundry_platform.Shared.HttpAuth.{Principal, has_any_role}
use laundry_platform.Core.OrderState.{
  Status, weighing, washing, status_eq, staff_roles_for, is_valid_transition, requires_reason,
  requires_paid_before_completing,
}
use laundry_platform.Core.Tables.{Tables, PaymentStatus, paid, order_key}
use laundry_platform.Core.Response.{Response, error, internal_error, Handler}
use laundry_platform.Core.Transition.{transition_status_tx, ptr}
use laundry_platform.Core.Fetch.{commit_and_show}

pub record ChangeStatusRequest : Type 0 where
  pub to_status : Status
  pub reason : String

abbrev pub is_paid : PaymentStatus → Bool
is_paid paid = true
is_paid _ = false

-- The tests between the read of the order and the transaction: the first that fails answers.
unfoldable pub status_guards :
    Status → PaymentStatus → ChangeStatusRequest → Principal → Option Response
unfolding requires_reason requires_paid_before_completing
status_guards current payment req principal =
    if status_eq req.to_status washing && status_eq current weighing
    then some (error 409 "INVALID_TRANSITION")
    else if not (is_valid_transition current req.to_status)
    then some (error 409 "INVALID_TRANSITION")
    else if requires_reason req.to_status && str_eq (trim_space req.reason) ""
    then some (error 422 "VALIDATION_ERROR")
    else if requires_paid_before_completing req.to_status && not (is_paid payment)
    then some (error 409 "PAYMENT_NOT_COLLECTED")
    else if not (str_eq principal.type "STAFF")
        || not (has_any_role principal (staff_roles_for current req.to_status))
    then some (error 403 "FORBIDDEN_TRANSITION")
    else none

unfoldable pub change_order_status : String → ChangeStatusRequest → Principal → Handler Response
unfolding status_guards
change_order_status order_id req principal = do
  found ← query_pool (λ t. find_key order_key order_id t.orders)
  order ← row_or (error 404 "NOT_FOUND") internal_error found
  respond_some (status_guards order.status order.payment_status req principal)
  need internal_error begin_tx
  need internal_error
      (transition_status_tx order_id order.status req.to_status principal.id (ptr req.reason) false)
  commit_and_show order_id
