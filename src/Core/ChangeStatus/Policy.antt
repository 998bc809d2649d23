-- ===== src/Core/ChangeStatus/Policy.antt =====
-- The policy of the guards of `change_order_status`: the steps that staff may ask for.
use laundry_platform.Base.{String, true, false, ◌≡◌, ◌⊎◌, str_eq}
use laundry_platform.Base.Text.{trim_space}
use laundry_platform.Shared.HttpAuth.{Principal, has_role}
use laundry_platform.Core.OrderState.{
  Status, created, received, weighing, washing, drying, ironing, packing, ready, picked_up,
  delivered, completed, on_hold, cancelled,
}
use laundry_platform.Core.Tables.{PaymentStatus, paid}

-- An order that the laundry has not handed over, and one that is not washed yet.
pub data IsOpen : Status → Type 0 where
  open_created : IsOpen created
  open_received : IsOpen received
  open_weighing : IsOpen weighing
  open_washing : IsOpen washing
  open_drying : IsOpen drying
  open_ironing : IsOpen ironing
  open_packing : IsOpen packing
  open_ready : IsOpen ready

pub data IsUnwashed : Status → Type 0 where
  early_created : IsUnwashed created
  early_received : IsUnwashed received
  early_weighing : IsUnwashed weighing

-- The steps of the diagram that a request may take.
pub data Move : Status → Status → Type 0 where
  receive : Move created received
  dry : Move washing drying
  iron : Move drying ironing
  pack : Move ironing packing
  make_ready : Move packing ready
  pick_up : Move ready picked_up
  deliver : Move ready delivered
  close_picked_up : Move picked_up completed
  close_delivered : Move delivered completed
  hold : {s : Status} → IsOpen s → Move s on_hold
  cancel : {s : Status} → IsUnwashed s → Move s cancelled

ruleset moves = (
  receive, dry, iron, pack, make_ready, pick_up, deliver, close_picked_up, close_delivered, hold,
  cancel, open_created, open_received, open_weighing, open_washing, open_drying, open_ironing,
  open_packing, open_ready, early_created, early_received, early_weighing,
)

abbrev pub Has : Principal → String → Type 0
Has p role = has_role p role ≡ true

abbrev pub Manager : Principal → Type 0
Manager p = Has p "OUTLET_ADMIN" ⊎ Has p "OWNER" ⊎ Has p "SUPER_ADMIN"

abbrev pub Worker : Principal → Type 0
Worker p = Has p "CASHIER" ⊎ Has p "LAUNDRY_STAFF" ⊎ Manager p

-- What a step asks of the principal, the payment and the reason.
abbrev pub Needs : Principal → PaymentStatus → String → {from to : Status} → Move from to → Type 0
Needs p pay reason (hold s) = Manager p × (str_eq (trim_space reason) "" ≡ false)
Needs p pay reason (cancel s) = Manager p × (str_eq (trim_space reason) "" ≡ false)
Needs p pay reason close_picked_up = Worker p × (pay ≡ paid)
Needs p pay reason close_delivered = Worker p × (pay ≡ paid)
Needs p pay reason other = Worker p
