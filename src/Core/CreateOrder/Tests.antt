-- ===== src/Core/CreateOrder/Tests.antt =====
-- Runs of `create_order` on the sample tables.
use laundry_platform.Base.{[], ◌∷◌, none, some, true, false}
use laundry_platform.Base.Int.{pos}
use laundry_platform.Db.{calm, start}
use laundry_platform.Db.Runs.{Runs, idle}
use laundry_platform.Core.OrderState.{weighing}
use laundry_platform.Core.Tables.{Tables, ServicePrice, unpaid}
use laundry_platform.Core.Samples.{thousandths, shop, weighing-Inv}
use laundry_platform.Core.Invariant.{Inv}
use laundry_platform.Core.Create.{CreateRequest, Fresh}
use laundry_platform.Core.CreateOrder.{create_order}
use laundry_platform.Core.CreateOrder.Effect as CreateOrderEffect
use laundry_platform.Core.CreateOrder.Effect.{create_order-Runs}
use laundry_platform.Core.CreateOrder.Inv.{create_order-Inv}

abbrev price : ServicePrice
price = record {
  service_id = "s1";
  outlet_id = none;
  price_per_unit = pos 7000;
  effective_to = none;
}

abbrev stocked : Tables
stocked = record (shop weighing unpaid) { service_prices = price ∷ [] }

abbrev request : CreateRequest
request = record {
  customer_id = "";
  customer_name = "Ani";
  customer_phone = "0811";
  outlet_id = "";
  source = "POS";
  fulfillment_type = "";
  items = record { service_id = "s1"; estimated_weight_kg = some 2000 } ∷ [];
  pickup_requested = true;
  delivery_requested = false;
  discount_amount = none;
  notes = none;
}

abbrev fresh : Fresh
fresh = record {
  customer_id = "c2";
  customer_code = "CUS-2";
  order_id = "o2";
  order_code = "ORD-2";
  item_ids = λ n. "i2";
  pickup_id = "k2";
  delivery_id = "d2";
}

create_order-Runs_example :
    Runs stocked idle
      (create_order thousandths request fresh)
      (CreateOrderEffect.Answered thousandths request fresh stocked)
create_order-Runs_example = create_order-Runs thousandths request fresh stocked

create_order-Inv_example :
    Inv (create_order thousandths request fresh (start calm stocked)).1.tables
create_order-Inv_example = create_order-Inv thousandths request fresh stocked calm weighing-Inv
