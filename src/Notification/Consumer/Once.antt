-- ===== src/Notification/Consumer/Once.antt =====
-- Messages cost money: no event leads to two of them, however often it is delivered
-- (services/notification/internal/handler/events.go, the loop `consume`).
use laundry_platform.Base.{
  ℕ, ◌+◌, ◌≤◌, String, List, [], ◌∷◌, Option, none, some, Bool, true, false, ◌≡◌, sym, subst, inl,
  inr, arith, str_eq, eq_iff, if◌then◌else◌, exists,
}
use laundry_platform.Db.{Reply, start}
use laundry_platform.Db.Runs.{Runs-Keeps}
use laundry_platform.Notification.Consumer.{
  Tables, Notification, Sent, Envelope, Core, already_processed, handle_core_event,
  handle_payment_event,
}
use laundry_platform.Notification.Consumer.Effect.{Handled, Notified, handle_event-Runs}

-- One delivery: the queue, the envelope, Core's answers and the replies to the calls. A body that is
-- no envelope is acknowledged and dropped.
pub record Arrival : Type 0 where
  pub of_payment : Bool
  pub body : Option Envelope
  pub core : Core
  pub net : ℕ → Reply

unfoldable pub consume : Arrival → Tables → Tables
consume a t = elim a.body [
  | none ↦ t
  | some env ↦
      if a.of_payment
      then (handle_payment_event a.core env (start a.net t)).1.tables
      else (handle_core_event a.core env (start a.net t)).1.tables
]

-- The latest delivery stands first.
unfoldable pub consume_all : List Arrival → Tables → Tables
consume_all [] t = t
consume_all (a ∷ rest) t = consume a (consume_all rest t)

-- How many messages an event led to.
unfoldable pub messages_of : String → List Sent → ℕ
messages_of e [] = 0
messages_of e (m ∷ ms) =
    if str_eq e m.source_event_id then 1 + messages_of e ms else messages_of e ms

pub record Once (t : Tables) : Type 0 where
  pub at_most_one : (e : String) → messages_of e t.sent ≤ 1
  pub none_before : (e : String) → already_processed e t ≡ false → messages_of e t.sent ≡ 0

kept : (t t' : Tables) → t'.notifications ≡ t.notifications → t'.sent ≡ t.sent → Once t → Once t'
unfolding already_processed
kept t t' rows messages h = record {
  at_most_one = λ e. subst (λ x. messages_of e x ≤ 1) (sym messages) (h.at_most_one e);
  none_before = λ e fresh.
      subst (λ x. messages_of e x ≡ 0) (sym messages)
        (h.none_before e (
          subst
            (λ (x : List Notification).
              exists (λ (n : Notification). str_eq e n.source_event_id) x ≡ false)
            rows fresh));
}

module _ (env : Envelope) (t t' : Tables) (h : Once t) (w : Notified env t t') where
  fresh_before : (e : String) → already_processed e t' ≡ false → already_processed e t ≡ false
  unfolding already_processed
  fresh_before e q =
      let z =
        subst
          (λ (x : List Notification).
            exists (λ (n : Notification). str_eq e n.source_event_id) x ≡ false)
          w.stored q in
      ground (arith, z)

  other_event : (e : String) → already_processed e t' ≡ false → str_eq e env.event_id ≡ false
  unfolding already_processed
  other_event e q =
      let z =
        subst
          (λ (x : List Notification).
            exists (λ (n : Notification). str_eq e n.source_event_id) x ≡ false)
          w.stored q in
      subst (λ i. str_eq e i ≡ false) w.about (ground (arith, z))

  one_more :
      (e : String) (m : Sent) → m.source_event_id ≡ env.event_id → messages_of e (m ∷ t.sent) ≤ 1
  unfolding messages_of
  one_more e m is =
      rw is
        (ground (arith, eq_iff e env.event_id, h.at_most_one e, h.none_before env.event_id w.fresh))

  none_yet :
      (e : String) (m : Sent)
      → m.source_event_id ≡ env.event_id
      → already_processed e t' ≡ false
      → messages_of e (m ∷ t.sent) ≡ 0
  unfolding messages_of
  none_yet e m is q = rw (is, other_event e q) (h.none_before e (fresh_before e q))

  Notified-Once : Once t'
  Notified-Once = record {
    at_most_one = λ e. elim w.messages [
      | inl q ↦ subst (λ x. messages_of e x ≤ 1) (sym q) (h.at_most_one e)
      | inr (m, is, q) ↦ subst (λ x. messages_of e x ≤ 1) (sym q) (one_more e m is)
    ];
    none_before = λ e fresh. elim w.messages [
      | inl q ↦ subst (λ x. messages_of e x ≡ 0) (sym q) (h.none_before e (fresh_before e fresh))
      | inr (m, is, q) ↦ subst (λ x. messages_of e x ≡ 0) (sym q) (none_yet e m is fresh)
    ];
  }

Handled-Once :
    (env : Envelope) (t : Tables) → Once t → (b : Bool) (t' : Tables) → Handled env t b t' → Once t'
Handled-Once env t h b t' (inl (rows, messages)) = kept t t' rows messages h
Handled-Once env t h b t' (inr w) = Notified-Once env t t' h w

consume-Once : (a : Arrival) (t : Tables) → Once t → Once (consume a t)
unfolding consume
consume-Once a t h = go a.of_payment a.body
  where
    go :
        (q : Bool) (b : Option Envelope)
        → Once (consume (record { of_payment = q; body = b; core = a.core; net = a.net }) t)
    go q none = h
    go true (some env) =
        Runs-Keeps Once ((handle_event-Runs env t a.core).1) (Handled-Once env t h) a.net
    go false (some env) =
        Runs-Keeps Once ((handle_event-Runs env t a.core).0) (Handled-Once env t h) a.net

-- If each event led to at most one message, and an event without a notification to none, then the
-- same holds after any deliveries to both consumers, whatever Core answers and whatever the replies
-- of the database and of the provider of messages.
pub consume_all-Once : (rest : List Arrival) (t : Tables) → Once t → Once (consume_all rest t)
unfolding consume_all
consume_all-Once [] t h = h
consume_all-Once (a ∷ rest) t h = consume-Once a (consume_all rest t) (consume_all-Once rest t h)
