-- ===== src/Gateway/Authn.antt =====
-- gateway/internal/authn/jwt.go, `Authenticate`. The signed token's parser (shared/authtoken over
-- a JWT library) is a parameter: it yields the claims of a token that is valid now.
pub mod Effect
use laundry_platform.Base.{String, List, [], ◌∷◌, Option, none, some, Bool, str_eq, if◌then◌else◌}
use laundry_platform.Base.Text.{join, cut_prefix}
use laundry_platform.Shared.HttpAuth.Headers.{Headers}

-- `authtoken.Claims`, as far as the Gateway reads it.
pub record Claims : Type 0 where
  pub subject : String
  pub principal_type : String
  pub roles : List String
  pub outlet_ids : List String

-- The request is passed on with its headers, or refused with 401 INVALID_TOKEN.
pub data Outcome : Type 0 where
  forwarded : Headers → Outcome
  invalid_token : Outcome

unfoldable pub strip_trusted : Headers → Headers
strip_trusted h = record h { principal_type = ""; principal_id = ""; roles = ""; outlet_ids = "" }

unfoldable pub set_trusted : Claims → Headers → Headers
unfolding join
set_trusted c h = record h {
  principal_type = c.principal_type;
  principal_id = c.subject;
  roles = join "," c.roles;
  outlet_ids = join "," c.outlet_ids;
}

-- The end of the middleware, by the parsed token, and by the text after `Bearer `.
unfoldable pub with_claims : Option Claims → Headers → Outcome
unfolding set_trusted
with_claims none h = invalid_token
with_claims (some c) h = forwarded (set_trusted c h)

unfoldable pub with_token : (String → Option Claims) → Option String → Headers → Outcome
unfolding with_claims
with_token parse none h = invalid_token
with_token parse (some token) h = with_claims (parse token) h

unfoldable pub authenticate : (String → Option Claims) → Headers → Outcome
unfolding strip_trusted with_token
authenticate parse h =
    let bare = strip_trusted h in
    if str_eq bare.authorization ""
    then forwarded bare
    else with_token parse (cut_prefix "Bearer " bare.authorization) bare
