-- ===== src/Shared/HttpAuth.antt =====
-- shared/httpauth/principal.go: the principal that the Gateway forwards, and the role checks.
pub mod Headers
use laundry_platform.Base.{String, List, [], ◌∷◌, Bool, true, if◌then◌else◌, false, ◌||◌, str_eq}

pub record Principal : Type 0 where
  pub type : String
  pub id : String
  pub roles : List String
  pub outlet_ids : List String

unfoldable pub contains : List String → String → Bool
contains [] a = false
contains (x ∷ xs) a = str_eq x a || contains xs a

unfoldable pub has_role : Principal → String → Bool
unfolding contains
has_role p role = contains p.roles role

unfoldable pub has_any_role : Principal → List String → Bool
unfolding has_role
has_any_role p [] = false
has_any_role p (want ∷ wants) = has_role p want || has_any_role p wants

unfoldable pub is_global_staff : Principal → Bool
unfolding has_any_role
is_global_staff p = has_any_role p ("OWNER" ∷ "SUPER_ADMIN" ∷ [])

unfoldable pub can_access_outlet : Principal → String → Bool
unfolding is_global_staff contains
can_access_outlet p outlet_id = if is_global_staff p then true else contains p.outlet_ids outlet_id
