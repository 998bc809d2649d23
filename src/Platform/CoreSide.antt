-- ===== src/Platform/CoreSide.antt =====
-- Core marks an order as paid only in the reaction to a `payment.paid` event for it.
pub mod Requests
pub mod Events
use laundry_platform.Base.{
  ℕ, String, List, [], ◌∷◌, ◌++◌, Option, none, some, Bool, true, false, ◌≡◌, refl, sym, ap, ◌∙◌,
  subst, ◌⊎◌, inl, inr, arith, find_key, update_key, find_key-append, find_key-append_some,
  find_key-update_key, Bool-cases, Option-cases, str_eq, eq_iff, if◌then◌else◌,
}
use mathlib.Core.Option
use laundry_platform.Db.{Exec, applied, Reply, start, row_or, done_or}
use laundry_platform.Db.Runs.{
  Runs, Runs-Keeps, Runs-respond_bind, Runs-respond, Runs-respond_if, Runs-pure, idle,
}
use laundry_platform.Db.Calls.{Runs-exec_pool, Runs-query_pool}
use laundry_platform.Core.OrderState.{Status, status_eq}
use laundry_platform.Core.Tables.{Tables, Order, PaymentStatus, unpaid, paid, order_key}
use laundry_platform.Core.Transition.Effect.{moved}

-- Every order that is marked as paid has a property.
abbrev pub PaidOrders : (String → Type 0) → List Order → Type 0
PaidOrders ok os =
    (id : String) (o : Order) → find_key order_key id os ≡ some o → o.payment_status ≡ paid → ok id

module _ (ok : String → Type 0) where
  pub PaidOrders-update :
      (k : String) (f : Order → Order) (os : List Order)
      → ((x : Order) → (f x).id ≡ x.id)
      → ((x : Order) → find_key order_key k os ≡ some x → (f x).payment_status ≡ paid → ok k)
      → PaidOrders ok os
      → PaidOrders ok (update_key order_key k f os)
  PaidOrders-update k f os same new h j o found is_paid =
      go (str_eq k j) (find_key order_key j os) refl refl
        (sym (find_key-update_key order_key k j f os same) ∙ found)
    where
      go :
          (b : Bool) (x : Option Order)
          → str_eq k j ≡ b
          → find_key order_key j os ≡ x
          → (if b then Option.map f x else x) ≡ some o
          → ok j
      go false x e q r = h j o (q ∙ r) is_paid
      go true none e q r = absurd (cc)
      go true (some x) e q r =
          let k_is_j : k ≡ j = (eq_iff k j).0 e in
          let fx : f x ≡ o = cc in
          subst ok k_is_j (
            new x (subst (λ i. find_key order_key i os ≡ some x) (sym k_is_j) q)
              (ap (λ y. y.payment_status) fx ∙ is_paid))

  pub PaidOrders-kept :
      (k : String) (f : Order → Order) (os : List Order)
      → ((x : Order) → (f x).id ≡ x.id)
      → ((x : Order) → (f x).payment_status ≡ x.payment_status)
      → PaidOrders ok os
      → PaidOrders ok (update_key order_key k f os)
  PaidOrders-kept k f os same keeps h =
      PaidOrders-update k f os same (λ x found p. h k x found (sym (keeps x) ∙ p)) h

  pub PaidOrders-append :
      (o : Order) (os : List Order)
      → find_key order_key o.id os ≡ none
      → o.payment_status ≡ unpaid
      → PaidOrders ok os
      → PaidOrders ok (os ++ o ∷ [])
  PaidOrders-append o os free not_paid h j x found is_paid =
      elim (Option-cases (find_key order_key j os)) [
        | inl e ↦ absurd (new (str_eq o.id j) (sym (find_key-append order_key j os o e) ∙ found))
        | inr (y, e) ↦
            let z : y ≡ x =
              some-injective (sym (find_key-append_some order_key j os o y e) ∙ found) in
            h j x (e ∙ ap some z) is_paid
      ]
    where
      some-injective : {a b : Order} → some a ≡ some b → a ≡ b
      some-injective e = cc

      new : (b : Bool) → (if b then some o else none) ≡ some x → ⊥
      new false e = cc
      new true e =
          let z : o ≡ x = cc in
          let p : o.payment_status ≡ paid = ap (λ y. y.payment_status) z ∙ is_paid in absurd (cc)

  pub moved-PaidOrders :
      (id : String) (from to : Status) (by : String) (reason : Option String) (override : Bool)
      (t : Tables)
      → PaidOrders ok t.orders
      → PaidOrders ok (moved id from to by reason override t).orders
  unfolding moved
  moved-PaidOrders id from to by reason override t h =
      PaidOrders-kept id _ t.orders (λ x. refl) (λ x. refl) h

  pub moved_if-PaidOrders :
      (b : Bool) (id : String) (from to : Status) (by : String) (reason : Option String)
      (override : Bool) (t : Tables)
      → PaidOrders ok t.orders
      → PaidOrders ok (if b then moved id from to by reason override t else t).orders
  moved_if-PaidOrders true id from to by reason override t h =
      moved-PaidOrders id from to by reason override t h
  moved_if-PaidOrders false id from to by reason override t h = h
