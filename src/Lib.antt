-- ===== src/Lib.antt =====
-- The laundry platform: orders of a laundry with several outlets. The Core service
-- (services/core) keeps the orders, the Payment service (services/payment) the charges and
-- refunds. Each service writes its events to an outbox in the transaction that changes its
-- tables; Core consumes the `payment.*` events and so starts the washing of an order that is
-- paid and cancels one that is refunded; Reporting consumes the events of both and keeps sums of
-- sales, and Notification sends a message for some of them. Requests come through the Gateway,
-- which checks the token and forwards the principal in headers, which the services read
-- (shared/httpauth).
--
-- The files:
--   Base, Base/*: shared names, lists with a key (a table with its primary key), Go's int64 with
--     its wrap-around, strings.TrimSpace.
--   Db: what a handler sees of PostgreSQL through pgx. A handler is a function on a session: the
--     committed tables, what the open transaction sees, and one reply of the network for each
--     call. A call may be refused or its answer lost after it was carried out; a failed statement
--     aborts the transaction, and a commit of that reports an error. `respond` ends a handler.
--     Db/Runs and Db/Calls: rules that say how a handler ends under every choice of replies.
--   Shared/HttpAuth: shared/httpauth/principal.go.
--   Core/Tables, Core/Response: rows of services/core/migrations, and answers.
--   Core/OrderState: services/core/internal/handler/orderstate.go.
--   Core/Transition: transitionStatusTx of orders.go with the outbox writer.
--   Core/ChangeStatus, Core/Weigh, Core/Finalize, Core/Fetch, Core/Pricing, Core/Create,
--     Core/CreateOrder: ChangeOrderStatus, WeighItem, FinalizeWeighing, fetchOrder, activePriceTx
--     and CreateOrder of orders.go; Core/Float: float64 as a parameter.
--   Core/Access: GetOrder and canAccessOrder of orders.go. Core/Tax: SetTaxRate of tax.go.
--   Core/PaymentEvents: payment_events.go. Core/Fulfillment: pickup_delivery.go.
--   Core/Invariant: what holds of Core's tables between two requests.
--   Payment/Tables, Payment/Create, Payment/Simulate, Payment/Refunds: payments.go, simulate.go and
--     refunds.go of services/payment/internal/handler; Payment/Outbox: its outbox writer in proofs.
--   Gateway/Authn, Gateway/Proxy, Gateway/RateLimit: gateway/internal/authn/jwt.go, proxy/proxy.go
--     and ratelimit/ratelimit.go. The parser of tokens is a parameter, and the answers of Redis are.
--   Reporting/Tables, Reporting/Sales, Reporting/Events: services/reporting/internal/handler/
--     events.go; Reporting/Events/Delivery/Ledger: the ledger that the sums of sales stand for.
--   Notification/Consumer: services/notification/internal/handler/events.go. A call of the provider
--     of messages is one whose answer may be lost, as a call of the database is.
--   Identity/Staff: login, refresh and logout in staff_auth.go and refresh_logout.go of
--     services/identity/internal/handler.
--   Shared/Idempotency: shared/idempotency/idempotency.go, around any handler.
--   Platform: Core and Payment together, as steps on the tables of both: requests that the routers
--     pass on (router.go of each service), and deliveries of Payment's events to Core.
--     Platform/CoreSide, Platform/PaymentSide: what each service keeps; Platform/Safety: what
--     follows for both.
--   Effect, Refunds/Request: what a handler answers and commits on every branch. Inv: what it
--     keeps. Calm: what it answers where every call comes through. Samples and Tests: concrete
--     tables and runs.
--   Core/ChangeStatus/Policy: which requests the guards let through; Core/ChangeStatus/Pipeline:
--     requests one after the other. Payment/Create/Twice, Payment/Refunds/Twice: a charge or an
--     approval, and one after it.
--
-- How the code is read: a table is a list of rows, a log has its newest row first, and the order
-- of insertion stands for created_at. An SQL text is a function on tables with the constraints
-- that it can break: unique indexes, references, CHECKs. Status texts are enumerations; `unknown`
-- is any other text. A request is a decoded one, and an id in it or in an event is taken to be the
-- text of a UUID; generated ids and codes, the clock, Core's answer to Payment and the provider's
-- answer are arguments. Texts of messages, timestamps that nothing reads and logging are left out.
-- A payload of an event is taken to be encoded without an error. A float64 is its bit pattern, and
-- its operations are a parameter of which nothing is assumed. An int64 wraps at 64 bits. No fuel
-- is used: no handler loops but over the items of a request.
--
-- Not modelled: two handlers that run at the same time, the relay of the outbox and the broker,
-- Identity's users and customers, the texts of messages, the reads of Reporting, the master data of
-- Core, lists, metrics, and the web client.
pub mod Base
pub mod Db
pub mod Shared
pub mod Core
pub mod Payment
pub mod Gateway
pub mod Reporting
pub mod Notification
pub mod Identity
pub mod Platform
