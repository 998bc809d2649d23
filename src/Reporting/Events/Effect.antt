-- ===== src/Reporting/Events/Effect.antt =====
-- What a method of the consumers commits: all that its event asks for, with the mark, or nothing.
use laundry_platform.Base.{
  ℕ, String, none, some, Option, Bool, true, false, ◌≡◌, refl, ◌⊎◌, inl, inr, find_key, str_eq,
  if◌then◌else◌,
}
use laundry_platform.Base.Int.{ℤ}
use laundry_platform.Db.{exec_tx, Exec, ◌>>=◌, applied, done_or, respond, need, begin_tx}
use laundry_platform.Db.Runs.{
  Runs, Runs-respond, Runs-pure, Runs-need, Runs-respond_bind, Runs-if, idle, seeing, Tx,
}
use laundry_platform.Db.Calls.{Runs-begin_tx, Runs-query_tx, Runs-exec_tx, Runs-write, Runs-commit}
use laundry_platform.Reporting.Tables.{Tables, Summary, summary_key, mark}
use laundry_platform.Reporting.Events.{
  Envelope, Payload, Method, mark_and_commit, mark_only, insert_summary, update_summary,
  insert_sale, insert_refund, update_refunded, amount_or_zero, row_or_absent, with_outlet,
  record_sale, record_refund, count_sale, project_created, project_weighed, project_status_changed,
  project_refund, is_change, dispatch_core, dispatch_payment,
}

-- The two queues, and what an event on each is.
pub data Consumer : Type 0 where
  core payments : Consumer

pub data Kind : Type 0 where
  created weighed changed refunded other : Kind

unfoldable pub kind : Consumer → String → Kind
kind core name =
    if str_eq name "order.created"
    then created
    else if str_eq name "order.weighed"
    then weighed
    else if is_change name
    then changed
    else other
kind payments name = if str_eq name "payment.refunded" then refunded else other

abbrev pub dispatch : Consumer → Envelope → Method
dispatch core = dispatch_core
dispatch payments = dispatch_payment

-- A sale that a completed order adds to its day.
pub record Sale : Type 0 where
  pub event_id : String
  pub date : String
  pub outlet : String
  pub amount : ℤ

abbrev pub sale_of : Envelope → Summary → Sale
sale_of env s = record {
  event_id = env.event_id;
  date = env.occurred_on;
  outlet = s.outlet_id;
  amount = amount_or_zero s.total_amount;
}

abbrev pub weight_set : Payload → Tables → Tables
weight_set p t = update_summary p.order_id (λ s. record s { total_amount = some p.total_amount }) t

abbrev pub status_set : Payload → Tables → Tables
status_set p t = update_summary p.order_id (λ s. record s { status = p.to_status }) t

abbrev pub completed_set : Envelope → Payload → Tables → Tables
completed_set env p t =
    update_summary p.order_id (λ s. record s { completed_at = some env.occurred_at }) t

-- The order that an event is about, where it is known with an outlet.
abbrev pub known_order : Payload → Tables → Option Summary
known_order p t = with_outlet (find_key summary_key p.order_id t.order_summary)

pub data Reacts (c : Consumer) (env : Envelope) (t : Tables) : Option Sale → Tables → Type 0 where
  on_created :
      (p : Payload)
      → kind c env.event_type ≡ created
      → env.payload ≡ some p
      → Reacts c env t none (insert_summary env p t)
  on_weighed :
      (p : Payload)
      → kind c env.event_type ≡ weighed
      → env.payload ≡ some p
      → Reacts c env t none (weight_set p t)
  on_changed :
      (p : Payload)
      → kind c env.event_type ≡ changed
      → env.payload ≡ some p
      → (str_eq p.to_status "COMPLETED" ≡ false) ⊎ (known_order p (status_set p t) ≡ none)
      → Reacts c env t none (status_set p t)
  on_completed :
      (p : Payload) (s : Summary) (n : ℕ) (u : Tables)
      → kind c env.event_type ≡ changed
      → env.payload ≡ some p
      → str_eq p.to_status "COMPLETED" ≡ true
      → known_order p (status_set p t) ≡ some s
      → insert_sale env.occurred_on s.outlet_id
          (amount_or_zero s.total_amount)
          (completed_set env p (status_set p t))
        ≡ applied n u
      → Reacts c env t (some (sale_of env s)) u
  on_refunded :
      (p : Payload) (s : Summary) (n m : ℕ) (v u : Tables)
      → kind c env.event_type ≡ refunded
      → env.payload ≡ some p
      → known_order p t ≡ some s
      → insert_refund env.occurred_on s.outlet_id p.amount t ≡ applied n v
      → update_refunded env.occurred_on s.outlet_id p.amount v ≡ applied m u
      → Reacts c env t none u
  on_refund_unknown :
      (p : Payload)
      → kind c env.event_type ≡ refunded
      → env.payload ≡ some p
      → known_order p t ≡ none
      → Reacts c env t none t
  on_other : kind c env.event_type ≡ other → Reacts c env t none t

-- A method that returns an error may have lost only the answer to its commit.
abbrev pub Projected : Consumer → Envelope → Tables → Bool → Tables → Type 0
Projected c env t b t' =
    (b ≡ false) × (t' ≡ t)
    ⊎ ((o : Option Sale) × (u : Tables) × Reacts c env t o u × (t' ≡ mark env.event_id u))

module _ (c : Consumer) (env : Envelope) (t : Tables) where
  nothing : (v : Tx Tables) → Runs {A = Bool} t v (respond false) (Projected c env t)
  nothing v = Runs-respond _ (inl (refl, refl))

  finishes :
      (o : Option Sale) (x : Tables)
      → Reacts c env t o x
      → Runs t (seeing x) (mark_and_commit env.event_id) (Projected c env t)
  unfolding mark_and_commit done_or
  finishes o x h =
      Runs-write _ _ _ _
        (Runs-pure _ _ (
          Runs-need _ _ _ _ (
            Runs-commit _ _ (Runs-respond _ (inr (o, x, h, refl)))
              (Runs-respond _ (inr (o, x, h, refl))) (Runs-respond _ (inl (refl, refl))))))
        (Runs-respond_bind _ _ (inl (refl, refl)))

  -- A statement, the test of its error, and the rest.
  then_ok :
      (x : Tables) (u : Tables → Exec Tables) (k : Method)
      → ((n : ℕ) (y : Tables) → u x ≡ applied n y → Runs t (seeing y) k (Projected c env t))
      → Runs t (seeing x) (exec_tx u >>= λ r. done_or false false r >>= λ _. k) (Projected c env t)
  unfolding done_or
  then_ok x u k h =
      Runs-exec_tx _ _ _ (λ n y e. Runs-pure _ _ (h n y e))
        (λ e. Runs-respond_bind _ _ (inl (refl, refl))) (Runs-respond_bind _ _ (inl (refl, refl)))

  always_ok :
      (x : Tables) (g : Tables → Tables) (k : Method)
      → Runs t (seeing (g x)) k (Projected c env t)
      → Runs t
          (seeing x)
          (exec_tx (λ y. applied 1 (g y)) >>= λ r. done_or false false r >>= λ _. k)
          (Projected c env t)
  unfolding done_or
  always_ok x g k h =
      Runs-write _ _ _ _ (Runs-pure _ _ h) (Runs-respond_bind _ _ (inl (refl, refl)))

  opening :
      (k : Method)
      → Runs t (seeing t) k (Projected c env t)
      → Runs t idle (need false begin_tx >>= λ _. k) (Projected c env t)
  opening k h = Runs-need _ _ _ _ (Runs-begin_tx _ h (Runs-respond _ (inl (refl, refl))))

  pub mark_only-Runs :
      kind c env.event_type ≡ other → Runs t idle (mark_only env) (Projected c env t)
  unfolding mark_only
  mark_only-Runs e = opening _ (finishes _ _ (on_other e))

  module _ (p : Payload) (e : env.payload ≡ some p) where
    pub created-Runs :
        kind c env.event_type ≡ created → Runs t idle (project_created env p) (Projected c env t)
    unfolding project_created
    created-Runs k = opening _ (always_ok _ _ _ (finishes _ _ (on_created p k e)))

    pub weighed-Runs :
        kind c env.event_type ≡ weighed → Runs t idle (project_weighed env p) (Projected c env t)
    unfolding project_weighed
    weighed-Runs k = opening _ (always_ok _ _ _ (finishes _ _ (on_weighed p k e)))

    module _ (k : kind c env.event_type ≡ changed) where
      record_sale-Runs :
          (o : Option Summary)
          → str_eq p.to_status "COMPLETED" ≡ true
          → known_order p (status_set p t) ≡ o
          → Runs t (seeing (status_set p t)) (record_sale env p o) (Projected c env t)
      unfolding record_sale
      record_sale-Runs none fin known = finishes _ _ (on_changed p k e (inr known))
      record_sale-Runs (some s) fin known =
          always_ok _ _ _
            (then_ok _ _ _ (λ n y w. finishes _ _ (on_completed p s n y k e fin known w)))

      count_sale-Runs :
          str_eq p.to_status "COMPLETED" ≡ true
          → Runs t (seeing (status_set p t)) (count_sale env p) (Projected c env t)
      unfolding count_sale row_or_absent
      count_sale-Runs fin =
          Runs-query_tx _ _ _ (λ s found. Runs-pure _ _ (record_sale-Runs _ fin (rw found refl)))
            (λ found. Runs-pure _ _ (record_sale-Runs _ fin (rw found refl)))
            (Runs-respond_bind _ _ (inl (refl, refl)))

      pub changed-Runs : Runs t idle (project_status_changed env p) (Projected c env t)
      unfolding project_status_changed
      changed-Runs = opening _ (
          always_ok _ _ _
            (Runs-if _ _ _ _ count_sale-Runs (λ q. finishes _ _ (on_changed p k e (inl q)))))

    module _ (k : kind c env.event_type ≡ refunded) where
      record_refund-Runs :
          (o : Option Summary)
          → known_order p t ≡ o
          → Runs t (seeing t) (record_refund env p o) (Projected c env t)
      unfolding record_refund
      record_refund-Runs none known = finishes _ _ (on_refund_unknown p k e known)
      record_refund-Runs (some s) known =
          then_ok _ _ _
            (λ n v a. then_ok _ _ _ (λ m u b. finishes _ _ (on_refunded p s n m v u k e known a b)))

      pub refund-Runs : Runs t idle (project_refund env p) (Projected c env t)
      unfolding project_refund row_or_absent
      refund-Runs = opening _ (
          Runs-query_tx _ _ _ (λ s found. Runs-pure _ _ (record_refund-Runs _ (rw found refl)))
            (λ found. Runs-pure _ _ (record_refund-Runs _ (rw found refl)))
            (Runs-respond_bind _ _ (inl (refl, refl))))
