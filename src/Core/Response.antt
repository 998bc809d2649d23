-- ===== src/Core/Response.antt =====
-- What Core's handlers answer: a status with an error code, or a status with a JSON body.
use laundry_platform.Base.{ℕ, String, List, Option}
use laundry_platform.Db.{M}
use laundry_platform.Core.Tables.{Order, OrderItem, Tables, Fulfillment, Float64}

pub record OrderView : Type 0 where
  pub order : Order
  pub items : List OrderItem

pub data Body : Type 0 where
  order_body : OrderView → Body
  orders_body : List OrderView → ℕ → ℕ → ℕ → Body
  no_orders_body : Body
  tax_rate_body : String → Float64 → String → Body
  fulfillment_body : Fulfillment → Body
  fulfillment_update_body : String → String → String → Option ℕ → Body

-- `respond.Error` with its status and code (the message is left out), and `respond.JSON`.
pub data Response : Type 0 where
  error : ℕ → String → Response
  json : ℕ → Body → Response

abbrev pub internal_error : Response
internal_error = error 500 "INTERNAL_ERROR"

abbrev pub Handler : Type 0 → Type 0
Handler A = M Tables Response A
