-- ===== src/Core/OrderState.antt =====
-- services/core/internal/handler/orderstate.go: the statuses of an order and the transitions that
-- staff may request.
use laundry_platform.Base.{ℕ, String, List, [], ◌∷◌, Bool, false, ◌||◌, ◌==◌, if◌then◌else◌}

-- The thirteen values of `orders.status`; `unknown` is any other text that a request may hold.
pub data Status : Type 0 where
  created received weighing washing drying ironing packing : Status
  ready picked_up delivered completed on_hold cancelled unknown : Status

abbrev pub rank : Status → ℕ
rank created = 0
rank received = 1
rank weighing = 2
rank washing = 3
rank drying = 4
rank ironing = 5
rank packing = 6
rank ready = 7
rank picked_up = 8
rank delivered = 9
rank completed = 10
rank on_hold = 11
rank cancelled = 12
rank unknown = 13

-- `==` on two status texts of which at most one is `unknown`.
abbrev pub status_eq : Status → Status → Bool
status_eq s t = rank s == rank t

unfoldable pub transitions : Status → List Status
transitions created = received ∷ on_hold ∷ cancelled ∷ []
transitions received = on_hold ∷ cancelled ∷ []
transitions weighing = on_hold ∷ cancelled ∷ []
transitions washing = drying ∷ on_hold ∷ []
transitions drying = ironing ∷ on_hold ∷ []
transitions ironing = packing ∷ on_hold ∷ []
transitions packing = ready ∷ on_hold ∷ []
transitions ready = picked_up ∷ delivered ∷ on_hold ∷ []
transitions picked_up = completed ∷ []
transitions delivered = completed ∷ []
transitions other = []

unfoldable pub staff_roles_for : Status → Status → List String
staff_roles_for from to =
    if status_eq to on_hold || status_eq to cancelled
    then "OUTLET_ADMIN" ∷ "OWNER" ∷ "SUPER_ADMIN" ∷ []
    else "CASHIER" ∷ "LAUNDRY_STAFF" ∷ "OUTLET_ADMIN" ∷ "OWNER" ∷ "SUPER_ADMIN" ∷ []

-- The loop `for _, allowed := range transitions[from]`.
unfoldable pub allows : List Status → Status → Bool
allows [] to = false
allows (allowed ∷ rest) to = status_eq allowed to || allows rest to

unfoldable pub is_valid_transition : Status → Status → Bool
unfolding allows transitions
is_valid_transition from to = allows (transitions from) to

unfoldable pub requires_reason : Status → Bool
requires_reason to = status_eq to on_hold || status_eq to cancelled

unfoldable pub requires_paid_before_completing : Status → Bool
requires_paid_before_completing to = status_eq to completed
