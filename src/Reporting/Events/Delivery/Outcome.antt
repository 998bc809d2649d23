-- ===== src/Reporting/Events/Delivery/Outcome.antt =====
-- What an acknowledgement of a completion means, and payloads that do not decode
-- (services/reporting/internal/handler/events.go).
use laundry_platform.Base.{
  ℕ, Option, none, some, true, false, ◌≡◌, ◌≢◌, refl, sym, inl, inr, ap, subst, ◌∙◌, str_eq,
  eq_refl, find_key, find_key-update_key, arith,
}
use laundry_platform.Db.{Reply, start, exit}
use laundry_platform.Db.Runs.{Runs-total, Runs-answer}
use laundry_platform.Reporting.Tables.{Tables, Summary, summary_key, processed}
use laundry_platform.Reporting.Events.{
  Envelope, Payload, Verdict, ack, requeue, handle_envelope, handle_core_event, with_outlet,
  update_summary,
}
use laundry_platform.Reporting.Events.Effect.{
  Consumer, core, changed, other, kind, dispatch, Sale, sale_of, status_set, known_order, Reacts,
  on_created, on_weighed, on_changed, on_completed, on_refunded, on_refund_unknown, on_other,
}
use laundry_platform.Reporting.Events.Delivery.{
  Handled, put_back, seen_before, reacted, handle_envelope-Runs,
}
use laundry_platform.Reporting.Events.Delivery.Books.{Added, Booked, Reacts-Booked, daily-mark}

-- Nothing but an event of no interest does without a payload.
Reacts-payload :
    (c : Consumer) (env : Envelope) (t : Tables) (o : Option Sale) (u : Tables)
    → env.payload ≡ none
    → kind c env.event_type ≢ other
    → Reacts c env t o u
    → ⊥
Reacts-payload c env t o u none_there known (on_created p k e) = absurd (cc)
Reacts-payload c env t o u none_there known (on_weighed p k e) = absurd (cc)
Reacts-payload c env t o u none_there known (on_changed p k e f) = absurd (cc)
Reacts-payload c env t o u none_there known (on_completed p s n w k e f q r) = absurd (cc)
Reacts-payload c env t o u none_there known (on_refunded p s n m v w k e q r x) = absurd (cc)
Reacts-payload c env t o u none_there known (on_refund_unknown p k e f) = absurd (cc)
Reacts-payload c env t o u none_there known (on_other k) = known k

Handled-unreadable :
    (c : Consumer) (env : Envelope) (t : Tables)
    → env.payload ≡ none
    → kind c env.event_type ≢ other
    → processed env.event_id t ≡ false
    → (v : Verdict) (t' : Tables) → Handled c env t v t'
    → (v ≡ requeue) × (t' ≡ t)
Handled-unreadable c env t e k fresh v t' put_back = (refl, refl)
Handled-unreadable c env t e k fresh v t' (seen_before q) = absurd (cc)
Handled-unreadable c env t e k fresh v t' (reacted w o u q r) =
    absurd (Reacts-payload c env t o u e k r)

-- The delivery of a new event of a type that is projected, whose payload does not decode, is put
-- back in the queue and changes nothing, whatever the replies of the database.
pub unreadable_payload_requeued :
    (c : Consumer) (env : Envelope) (t : Tables) (net : ℕ → Reply)
    → env.payload ≡ none
    → kind c env.event_type ≢ other
    → processed env.event_id t ≡ false
    → ((handle_envelope (dispatch c) env (start net t)).0 ≡ exit requeue)
      × ((handle_envelope (dispatch c) env (start net t)).1.tables ≡ t)
unreadable_payload_requeued c env t net e k fresh =
    let (v, answer, h) = Runs-total (handle_envelope-Runs env t c) net in
    let (q, same) = Handled-unreadable c env t e k fresh v _ h in (answer ∙ ap exit q, same)

module _ (env : Envelope) (p : Payload) (s : Summary) (t : Tables) where
  known_after :
      find_key summary_key p.order_id t.order_summary ≡ some s
      → str_eq s.outlet_id "" ≡ false
      → known_order p (status_set p t) ≡ some (record s { status = p.to_status })
  unfolding with_outlet update_summary
  known_after found named =
      rw
        (
          find_key-update_key summary_key p.order_id p.order_id
              (λ x. record x { status = p.to_status }) t.order_summary (λ x. refl),
          eq_refl p.order_id,
          found,
        )
        (ground (arith, named))

  the_order :
      (q : Payload) → p ≡ q → known_order q (status_set q t) ≡ known_order p (status_set p t)
  the_order q same = ap (λ x. known_order x (status_set x t)) (sym same)

  Reacts-sale :
      kind core env.event_type ≡ changed
      → env.payload ≡ some p
      → str_eq p.to_status "COMPLETED" ≡ true
      → find_key summary_key p.order_id t.order_summary ≡ some s
      → str_eq s.outlet_id "" ≡ false
      → (o : Option Sale) (u : Tables) → Reacts core env t o u
      → o ≡ some (sale_of env s)
  Reacts-sale k e f found named o u (on_created q k' e') = absurd (cc)
  Reacts-sale k e f found named o u (on_weighed q k' e') = absurd (cc)
  Reacts-sale k e f found named o u (on_changed q k' e' (inl w)) =
      let same : p ≡ q = cc in let x = ap (λ x. str_eq x.to_status "COMPLETED") same in absurd (cc)
  Reacts-sale k e f found named o u (on_changed q k' e' (inr w)) =
      let x = the_order q (cc) ∙ known_after found named in absurd (cc)
  Reacts-sale k e f found named o u (on_completed q s' n w k' e' f' known r) =
      let x = the_order q (cc) ∙ known_after found named in
      let same : record s { status = p.to_status } ≡ s' = cc in
      ap (λ y. some (sale_of env y)) (sym same)
  Reacts-sale k e f found named o u (on_refunded q s' n m v w k' e' x r y) = absurd (cc)
  Reacts-sale k e f found named o u (on_refund_unknown q k' e' w) = absurd (cc)
  Reacts-sale k e f found named o u (on_other k') = absurd (cc)

  Handled-sale :
      kind core env.event_type ≡ changed
      → env.payload ≡ some p
      → str_eq p.to_status "COMPLETED" ≡ true
      → find_key summary_key p.order_id t.order_summary ≡ some s
      → str_eq s.outlet_id "" ≡ false
      → processed env.event_id t ≡ false
      → (t' : Tables) → Handled core env t ack t'
      → Added (sale_of env s) t.daily_outlet_sales t'.daily_outlet_sales
  Handled-sale k e f found named fresh t' (seen_before q) = absurd (cc)
  Handled-sale k e f found named fresh t' (reacted v o u q r) =
      let sale = Reacts-sale k e f found named o u r in
      rw (daily-mark env.event_id u)
        ((subst (λ x. Booked x t u) sale (Reacts-Booked core env t o u r)).0)

-- If the delivery of a new event that completes an order with a known outlet is acknowledged, the
-- order's amount and one order are added to the day and outlet, and every other day and outlet
-- keeps its amount and number.
pub completion_counted :
    (env : Envelope) (p : Payload) (s : Summary) (t : Tables) (net : ℕ → Reply)
    → kind core env.event_type ≡ changed
    → env.payload ≡ some p
    → str_eq p.to_status "COMPLETED" ≡ true
    → find_key summary_key p.order_id t.order_summary ≡ some s
    → str_eq s.outlet_id "" ≡ false
    → processed env.event_id t ≡ false
    → (handle_core_event (some env) (start net t)).0 ≡ exit ack
    → Added
        (sale_of env s)
        t.daily_outlet_sales
        (handle_core_event (some env) (start net t)).1.tables.daily_outlet_sales
unfolding handle_core_event
completion_counted env p s t net k e f found named fresh answer =
    Handled-sale env p s t k e f found named fresh _
      (Runs-answer (handle_envelope-Runs env t core) net answer)
