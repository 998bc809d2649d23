-- ===== src/Core/Samples.antt =====
-- Sample tables of Core for the tests and the witnesses.
use Prim.Native.Nat.{◌/◌, ◌*◌}
use laundry_platform.Base.{
  ◌+◌, [], ◌∷◌, none, some, true, false, ◌≡◌, refl, inl, inr, find_key, str_eq, Bool-cases, ltb,
}
use laundry_platform.Base.Int.{pos, pos_part}
use laundry_platform.Shared.HttpAuth.{Principal}
use laundry_platform.Core.OrderState.{Status, weighing, washing, ready}
use laundry_platform.Core.Tables.{
  Tables, Order, OrderItem, HistoryRow, PaymentStatus, unpaid, paid, Fulfillment,
}
use laundry_platform.Core.Float.{FloatOps}
use laundry_platform.Core.Invariant.{Inv, is_past_weighing, latest}

-- Thousandths.
abbrev pub thousandths : FloatOps
thousandths = record {
  of_int64 = λ n. pos_part n * 1000;
  mul = λ a b. a * b / 1000;
  div = λ a b. a * 1000 / b;
  lt = ltb;
  round_int64 = λ a. pos ((a + 500) / 1000);
  numeric_10_3 = some;
  numeric_5_2 = some;
}

abbrev pub staff : Principal
staff = record { type = "STAFF"; id = "u1"; roles = "LAUNDRY_STAFF" ∷ []; outlet_ids = "b1" ∷ [] }

abbrev pub order_in : Status → PaymentStatus → Order
order_in s p = record {
  id = "o1";
  order_code = "ORD-1";
  customer_id = "c1";
  current_outlet_id = "b1";
  source = "POS";
  fulfillment_type = "DELIVERY";
  status = s;
  payment_status = p;
  estimated_total_amount = some (pos 14000);
  subtotal_amount = none;
  discount_amount = pos 1000;
  tax_amount = pos 0;
  tax_rate_snapshot = 0;
  pickup_fee = pos 0;
  delivery_fee = pos 5000;
  total_amount = none;
  notes = none;
}

abbrev pub wash : OrderItem
wash = record {
  id = "i1";
  order_id = "o1";
  service_id = "s1";
  service_name_snapshot = "Wash";
  unit = "KG";
  estimated_weight_kg = some 2000;
  actual_weight_kg = some 2000;
  unit_price_snapshot = pos 7000;
  subtotal = some (pos 14000);
  is_locked = false;
}

abbrev reached : Status → HistoryRow
reached s = record {
  order_id = "o1";
  from_status = none;
  to_status = s;
  reason = none;
  performed_by = some "u1";
  is_administrative_override = false;
}

abbrev delivery : Fulfillment
delivery = record {
  id = "d1";
  order_id = "o1";
  address_id = none;
  status = "SCHEDULED";
  scheduled_at = none;
  completed_at = none;
  notes = none;
}

-- One order, in a status and with a payment status.
abbrev pub shop : Status → PaymentStatus → Tables
shop s p = record {
  orders = order_in s p ∷ [];
  order_items = wash ∷ [];
  order_status_history = reached s ∷ [];
  outbox_events = [];
  pickup_requests = [];
  delivery_requests = delivery ∷ [];
  services = record { id = "s1"; name = "Wash"; unit = "KG"; is_active = true } ∷ [];
  service_prices = [];
  tax_rates =
      record {
        id = "t1";
        rate_percentage = 11000;
        effective_to = none;
        reason = "PPN";
        created_by = "u1";
      }
      ∷ [];
  customers = [];
  outlets = record { id = "b1"; is_active = true } ∷ [];
  processed_events = [];
}

pub shop-Inv :
    (s : Status) (p : PaymentStatus) → (is_past_weighing s ≡ true → p ≡ paid) → Inv (shop s p)
unfolding find_key latest
shop-Inv s p first id = elim (Bool-cases (str_eq "o1" id)) [
  | inl e ↦ rw e (first, rw e refl)
  | inr e ↦ rw e tt
]

pub weighing-Inv : Inv (shop weighing unpaid)
weighing-Inv = shop-Inv weighing unpaid (λ e. absurd (cc))

pub washing-Inv : Inv (shop washing paid)
washing-Inv = shop-Inv washing paid (λ e. refl)

pub ready-Inv : Inv (shop ready paid)
ready-Inv = shop-Inv ready paid (λ e. refl)
