-- ===== src/Core/Tables.antt =====
-- Core's tables (services/core/migrations), as far as the handlers of this development use them.
-- A table is a list of rows; logs that are only appended to are kept with the newest row first.
use laundry_platform.Base.{ℕ, String, List, Option, Bool}
use laundry_platform.Base.Int.{ℤ}
use laundry_platform.Core.OrderState.{Status}

pub data PaymentStatus : Type 0 where
  unpaid pending paid failed refunded : PaymentStatus

-- A float64 is its bit pattern.
abbrev pub Float64 : Type 0
Float64 = ℕ

pub record Order : Type 0 where
  pub id : String
  pub order_code : String
  pub customer_id : String
  pub current_outlet_id : String
  pub source : String
  pub fulfillment_type : String
  pub status : Status
  pub payment_status : PaymentStatus
  pub estimated_total_amount : Option ℤ
  pub subtotal_amount : Option ℤ
  pub discount_amount : ℤ
  pub tax_amount : ℤ
  pub tax_rate_snapshot : Float64
  pub pickup_fee : ℤ
  pub delivery_fee : ℤ
  pub total_amount : Option ℤ
  pub notes : Option String

pub record OrderItem : Type 0 where
  pub id : String
  pub order_id : String
  pub service_id : String
  pub service_name_snapshot : String
  pub unit : String
  pub estimated_weight_kg : Option Float64
  pub actual_weight_kg : Option Float64
  pub unit_price_snapshot : ℤ
  pub subtotal : Option ℤ
  pub is_locked : Bool

pub record HistoryRow : Type 0 where
  pub order_id : String
  pub from_status : Option Status
  pub to_status : Status
  pub reason : Option String
  pub performed_by : Option String
  pub is_administrative_override : Bool

-- The event types of Core's outbox, with the payload of each.
pub data Payload : Type 0 where
  order_created : String → String → String → String → Payload
  order_weighed : String → ℤ → ℤ → ℤ → Payload
  order_moved : String → Status → Status → Option String → Option String → Payload

pub record OutboxRow : Type 0 where
  pub aggregate_id : String
  pub event_type : String
  pub payload : Payload

pub record Fulfillment : Type 0 where
  pub id : String
  pub order_id : String
  pub address_id : Option String
  pub status : String
  pub scheduled_at : Option ℕ
  pub completed_at : Option ℕ
  pub notes : Option String

pub record Service : Type 0 where
  pub id : String
  pub name : String
  pub unit : String
  pub is_active : Bool

pub record ServicePrice : Type 0 where
  pub service_id : String
  pub outlet_id : Option String
  pub price_per_unit : ℤ
  pub effective_to : Option ℕ

pub record TaxRate : Type 0 where
  pub id : String
  pub rate_percentage : Float64
  pub effective_to : Option ℕ
  pub reason : String
  pub created_by : String

pub record Customer : Type 0 where
  pub id : String
  pub customer_code : String
  pub name : String
  pub phone : String
  pub is_guest : Bool
  pub identity_account_id : Option String

pub record Outlet : Type 0 where
  pub id : String
  pub is_active : Bool

pub record Tables : Type 0 where
  pub orders : List Order
  pub order_items : List OrderItem
  pub order_status_history : List HistoryRow
  pub outbox_events : List OutboxRow
  pub pickup_requests : List Fulfillment
  pub delivery_requests : List Fulfillment
  pub services : List Service
  pub service_prices : List ServicePrice
  pub tax_rates : List TaxRate
  pub customers : List Customer
  pub outlets : List Outlet
  pub processed_events : List String

abbrev pub order_key : Order → String
order_key o = o.id

abbrev pub item_key : OrderItem → String
item_key i = i.id
