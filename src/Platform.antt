-- ===== src/Platform.antt =====
-- The services together: Core and Payment with their own tables, requests to either, and the
-- events that the relay (shared/outbox) takes from Payment's outbox to Core's consumer
-- (services/core/internal/handler/payment_events.go), at any time and any number of times.
pub mod CoreSide
pub mod PaymentSide
pub mod Safety
mod Tests
use laundry_platform.Base.{
  ℕ, String, List, [], ◌∷◌, Option, none, some, Bool, exists, str_eq, ◌≡◌, true,
}
use laundry_platform.Base.Int.{ℤ}
use laundry_platform.Db.{Reply, start}
use laundry_platform.Shared.HttpAuth.{Principal}
use laundry_platform.Core.Tables as Core
use laundry_platform.Core.Tables.{Float64}
use laundry_platform.Core.Float.{FloatOps}
use laundry_platform.Core.Response as CoreResponse
use laundry_platform.Core.Create.{CreateRequest, Fresh}
use laundry_platform.Core.CreateOrder.{create_order}
use laundry_platform.Core.ChangeStatus.{ChangeStatusRequest, change_order_status}
use laundry_platform.Core.Weigh.{weigh_item}
use laundry_platform.Core.Finalize.{FinalizeRequest, finalize_weighing}
use laundry_platform.Core.Fulfillment.{
  UpdateRequest, request_pickup, request_delivery, update_pickup, update_delivery,
}
use laundry_platform.Core.Tax.{set_tax_rate}
use laundry_platform.Core.PaymentEvents.{Envelope, handle_envelope}
use laundry_platform.Payment.Tables as Payment
use laundry_platform.Payment.Create as PaymentCreate
use laundry_platform.Payment.Create.{CoreOrder, create_payment}
use laundry_platform.Payment.Simulate.{Outcome, simulate_gateway_callback}
use laundry_platform.Payment.Refunds.{create_refund, approve_refund, reject_refund}

-- The requests that write to Core's tables, with what they generate.
pub data CoreRequest : Type 0 where
  create : CreateRequest → Fresh → CoreRequest
  change_status : String → ChangeStatusRequest → Principal → CoreRequest
  weigh : String → String → Float64 → Principal → CoreRequest
  finalize : String → FinalizeRequest → CoreRequest
  ask_pickup : String → String → String → String → CoreRequest
  ask_delivery : String → String → String → String → CoreRequest
  progress_pickup : String → UpdateRequest → ℕ → Principal → CoreRequest
  progress_delivery : String → UpdateRequest → ℕ → Principal → CoreRequest
  change_tax : Float64 → String → String → ℕ → Principal → CoreRequest

unfoldable pub serve_core : FloatOps → CoreRequest → CoreResponse.Handler CoreResponse.Response
serve_core ops (create req fresh) = create_order ops req fresh
serve_core ops (change_status id req p) = change_order_status id req p
serve_core ops (weigh order item weight p) = weigh_item ops order item weight p
serve_core ops (finalize id req) = finalize_weighing ops id req
serve_core ops (ask_pickup order address window id) = request_pickup order address window id
serve_core ops (ask_delivery order address window id) = request_delivery order address window id
serve_core ops (progress_pickup id req now p) = update_pickup id req now p
serve_core ops (progress_delivery id req now p) = update_delivery id req now p
serve_core ops (change_tax rate reason id now p) = set_tax_rate ops rate reason id now p

pub data PaymentRequest : Type 0 where
  charge : PaymentCreate.CreateRequest → PaymentCreate.Outside → PaymentRequest
  callback : String → String → Outcome → ℕ → PaymentRequest
  ask_refund : String → String → Option CoreOrder → String → String → Principal → PaymentRequest
  approve : String → Option ℤ → ℕ → Principal → PaymentRequest
  reject : String → String → PaymentRequest

unfoldable pub serve_payment : PaymentRequest → Payment.Handler Payment.Response
serve_payment (charge req out) = create_payment req out
serve_payment (callback provider id outcome now) = simulate_gateway_callback provider id outcome now
serve_payment (ask_refund payment reason order id code p) =
    create_refund payment reason order id code p
serve_payment (approve id amount now p) = approve_refund id amount now p
serve_payment (reject id reason) = reject_refund id reason

pub record State : Type 0 where
  pub core : Core.Tables
  pub payment : Payment.Tables

-- The envelope of a row of Payment's outbox; `event_id` is the row's id.
abbrev pub envelope : String → Payment.OutboxRow → Envelope
envelope event_id e = record {
  event_id = event_id;
  event_type = e.event_type;
  order_id = some e.order_id;
}

pub data InOutbox (e : Payment.OutboxRow) : List Payment.OutboxRow → Type 0 where
  newest : (es : List Payment.OutboxRow) → InOutbox e (e ∷ es)
  earlier :
      (d : Payment.OutboxRow) (es : List Payment.OutboxRow) → InOutbox e es → InOutbox e (d ∷ es)

-- One step: a request to a service, or the delivery of an event, under any replies.
pub data Step (ops : FloatOps) (s : State) : State → Type 0 where
  at_core :
      (r : CoreRequest) (net : ℕ → Reply)
      → Step ops s (record s { core = (serve_core ops r (start net s.core)).1.tables })
  at_payment :
      (r : PaymentRequest) (net : ℕ → Reply)
      → Step ops s (record s { payment = (serve_payment r (start net s.payment)).1.tables })
  delivery :
      (event_id : String) (e : Payment.OutboxRow) (net : ℕ → Reply)
      → InOutbox e s.payment.outbox_events
      → Step ops s
          (record s { core = (handle_envelope (envelope event_id e) (start net s.core)).1.tables })

pub data Reach (ops : FloatOps) (s : State) : State → Type 0 where
  here : Reach ops s s
  after : (u v : State) → Reach ops s u → Step ops u v → Reach ops s v
