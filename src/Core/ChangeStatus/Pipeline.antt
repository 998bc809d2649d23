-- ===== src/Core/ChangeStatus/Pipeline.antt =====
-- The way of an order from washing to the customer, as requests one after the other.
use laundry_platform.Base.{String, List, [], ◌∷◌, none, false, ◌≡◌}
use laundry_platform.Db.{Result, start, calm, exit}
use laundry_platform.Shared.HttpAuth.{Principal}
use laundry_platform.Core.OrderState.{Status}
use laundry_platform.Core.Tables.{Tables, Order, PaymentStatus, HistoryRow}
use laundry_platform.Core.Response.{Response, json, order_body}
use laundry_platform.Core.Transition.Effect.{history_row}
use laundry_platform.Core.Fetch.{items_of}
use laundry_platform.Core.ChangeStatus.{change_order_status, status_guards, ChangeStatusRequest}

abbrev pub asks : Status → ChangeStatusRequest
asks to = record { to_status = to; reason = "" }

-- One request after the other by the same principal, where every call comes through: the answers
-- and the tables in the end.
abbrev pub request_all :
    String → Principal → List Status → Tables → List (Result Response Response) × Tables
request_all id p [] t = ([], t)
request_all id p (to ∷ rest) t =
    let (answer, s) = change_order_status id (asks to) p (start calm t) in
    let (answers, t') = request_all id p rest s.tables in (answer ∷ answers, t')

-- The answer 200 with the order in a status.
abbrev pub shown_in : Order → Tables → Status → Result Response Response
shown_in o t to =
    exit
      (json 200 (order_body (record { order = record o { status = to }; items = items_of o.id t })))

-- No guard speaks against any of the requests, each from where the one before leads.
abbrev Passes : Principal → PaymentStatus → Status → List Status → Type 0
Passes p pay from [] = Unit
Passes p pay from (to ∷ rest) = (status_guards from pay (asks to) p ≡ none) × Passes p pay to rest

abbrev log_of : String → Principal → Status → List Status → List HistoryRow → List HistoryRow
log_of id p from [] h = h
log_of id p from (to ∷ rest) h = log_of id p to rest (history_row id from to p.id none false ∷ h)

abbrev last_of : Status → List Status → Status
last_of from [] = from
last_of from (to ∷ rest) = last_of to rest
