-- ===== src/Core/Access/Effect.antt =====
-- Who gets to see an order.
use laundry_platform.Base.{
  String, some, Bool, true, false, not, ◌≡◌, refl, str_eq, eq_iff, arith, if◌then◌else◌, subst,
}
use laundry_platform.Db.{M, ◌>>=◌, pure, respond, respond_if, row_or}
use laundry_platform.Db.Runs.{
  Runs, Runs-pure, Runs-respond, Runs-respond_bind, Runs-respond_if, Runs-assoc, idle,
}
use laundry_platform.Db.Calls.{Runs-query_pool}
use laundry_platform.Shared.HttpAuth.{Principal, can_access_outlet}
use laundry_platform.Core.Tables.{Tables, Order}
use laundry_platform.Core.Response.{Response, OrderView, error, json, order_body}
use laundry_platform.Core.Fetch.Reads.{Shows, Runs-fetch_order}
use laundry_platform.Core.Access.{
  customer_id_for_identity_account, is_owner, can_access_order, get_order,
}

-- Staff of the order's outlet or of all outlets, or the customer whose order it is.
pub data MaySee (p : Principal) (o : Order) (t : Tables) : Type 0 where
  as_staff :
      str_eq p.type "STAFF" ≡ true → can_access_outlet p o.current_outlet_id ≡ true → MaySee p o t
  as_owner :
      str_eq p.type "CUSTOMER" ≡ true
      → customer_id_for_identity_account p.id t ≡ some o.customer_id
      → MaySee p o t

module _ (id : String) (p : Principal) (t : Tables) where
  -- What is shown is what is stored, and only to whom may see it.
  pub record Shown (body : Response) : Type 0 where
    pub view : OrderView
    pub stored : Shows id t view
    pub answered : body ≡ json 200 (order_body view)
    pub allowed : MaySee p view.order t

  abbrev pub Answered : Response → Tables → Type 0
  Answered (error n c) t' = t' ≡ t
  Answered (json n b) t' = (t' ≡ t) × Shown (json n b)

  tested :
      (b : Bool) (view : OrderView)
      → Shows id t view
      → (b ≡ true → MaySee p view.order t)
      → Runs {A = Response} t idle
          (respond_if (not b) (error 403 "FORBIDDEN") >>= λ _. respond (json 200 (order_body view)))
          Answered
  tested b view stored may =
      Runs-respond_if _ _ _ _ (λ e. refl)
        (λ e. Runs-respond _ (
          refl,
          record { view = view; stored = stored; answered = refl; allowed = may (ground arith) },
        ))

  accessed :
      (staff customer : Bool) (o : Order) (f : Bool → M Tables Response Response)
      → str_eq p.type "STAFF" ≡ staff
      → str_eq p.type "CUSTOMER" ≡ customer
      → ((b : Bool) → (b ≡ true → MaySee p o t) → Runs t idle (f b) Answered)
      → Runs t idle
          ((if staff
              then pure (can_access_outlet p o.current_outlet_id)
              else if customer
              then is_owner p.id o.customer_id
              else pure false)
            >>= f)
          Answered
  unfolding is_owner
  accessed true customer o f s c go = Runs-pure _ _ (go _ (λ e. as_staff s e))
  accessed false true o f s c go = Runs-assoc _ _ _ (
      Runs-query_pool _ _
        (λ a e. Runs-pure _ _ (
          go _ (λ q. as_owner c (
            let z : a ≡ o.customer_id = (eq_iff a o.customer_id).0 q in
            subst (λ x. customer_id_for_identity_account p.id t ≡ some x) z e))))
        (λ e. Runs-pure _ _ (go _ (λ q. absurd (cc)))) (Runs-pure _ _ (go _ (λ q. absurd (cc)))))
  accessed false false o f s c go = Runs-pure _ _ (go _ (λ q. absurd (cc)))

  -- Whatever the replies of the database, `get_order` answers and changes nothing; a body is the
  -- stored order with its items, shown only to staff that may act on the order's outlet or to the
  -- customer whose order it is.
  pub get_order-Runs : Runs t idle (get_order id p) Answered
  unfolding get_order can_access_order row_or
  get_order-Runs =
      Runs-fetch_order _ _
        (λ view stored.
          Runs-pure _ _ (accessed _ _ _ _ refl refl (λ b may. tested b view stored may)))
        (λ e. Runs-respond_bind _ _ refl) (Runs-respond_bind _ _ refl)
