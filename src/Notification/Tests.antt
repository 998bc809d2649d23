-- ===== src/Notification/Tests.antt =====
-- Runs of Notification's consumer.
use laundry_platform.Base.{ℕ, [], ◌∷◌, some, false, refl, arith}
use laundry_platform.Base.Int.{pos}
use laundry_platform.Db.{Reply, calm, refused}
use laundry_platform.Notification.Consumer.{Tables, Envelope, Core}
use laundry_platform.Notification.Consumer.Once.{
  Arrival, consume_all, messages_of, Once, consume_all-Once,
}

abbrev nothing : Tables
nothing = record { notifications = []; notification_deliveries = []; sent = [] }

abbrev core : Core
core = record {
  order =
      λ id. some (record { order_code = "L1"; customer_id = "c1"; fulfillment_type = "PICKUP" });
  customer = λ id. some (record { name = "Ani"; phone = "0811" });
}

abbrev created : Envelope
created = record {
  event_id = "e1";
  event_type = "order.created";
  payload = some (record {
    order_id = "o1";
    order_code = "L1";
    customer_id = "c1";
    to_status = "";
    total_amount = pos 0;
    amount = pos 0;
  });
}

abbrev arrival : (ℕ → Reply) → Arrival
arrival net = record { of_payment = false; body = some created; core = core; net = net }

nothing-Once : Once nothing
unfolding messages_of
nothing-Once = record { at_most_one = λ e. omega arith; none_before = λ e fresh. refl }

-- The event is delivered three times, the first time in vain.
consume_all-Once_example :
    Once (consume_all (arrival calm ∷ arrival calm ∷ arrival (λ n. refused) ∷ []) nothing)
consume_all-Once_example =
    consume_all-Once (arrival calm ∷ arrival calm ∷ arrival (λ n. refused) ∷ []) nothing
      nothing-Once
