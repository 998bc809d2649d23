-- ===== src/Gateway/Authn/Effect.antt =====
-- What a service reads from a request that the Gateway passed on.
use laundry_platform.Base.{
  String, List, [], ◌∷◌, Option, none, some, Bool, true, false, ◌≡◌, refl, ◌⊎◌, inl, inr, str_eq,
  eq_iff, ap, ◌∙◌, Bool-cases, if◌then◌else◌,
}
use Prim.Native.Char.{Char}
use text.Mathlib.TextLemmas.{cons-append, cons-ne-nil}
use laundry_platform.Base.Text.{join, cut_prefix, Lacks, AllLack, split-join}
use laundry_platform.Shared.HttpAuth.{Principal}
use laundry_platform.Shared.HttpAuth.Headers.{Headers, listed, from_request}
use laundry_platform.Gateway.Authn.{
  Claims, Outcome, forwarded, strip_trusted, set_trusted, with_claims, with_token, authenticate,
}

-- A list of words that a header can hold: none of them is empty or has a comma.
abbrev pub Words : List String → Type 0
Words [] = Unit
Words (w ∷ ws) = (str_eq w "" ≡ false) × Lacks "," w × Words ws

lacks : (ws : List String) → Words ws → AllLack "," ws
lacks [] h = tt
lacks (w ∷ ws) h = (h.1, lacks ws h.2)

cons-ne-empty : (c : Char) (s : String) → str_eq (String.◌∷◌ c s) "" ≡ false
cons-ne-empty c s = elim (Bool-cases (str_eq (String.◌∷◌ c s) "")) [
  | inl e ↦ absurd (cons-ne-nil c s ((eq_iff (String.◌∷◌ c s) "").0 e))
  | inr e ↦ e
]

join-ne-empty :
    (w : String) (ws : List String) → str_eq w "" ≡ false → str_eq (join "," (w ∷ ws)) "" ≡ false
unfolding join
join-ne-empty w [] h = h
join-ne-empty String.[] (v ∷ ws) h = absurd (cc)
join-ne-empty (String.◌∷◌ c w) (v ∷ ws) h =
    rw (cons-append c w (String.◌∷◌ "," (join "," (v ∷ ws)))) (cons-ne-empty c _)

listed-join : (ws : List String) → Words ws → listed (join "," ws) ≡ ws
unfolding listed join
listed-join [] h = refl
listed-join (w ∷ ws) h = rw (join-ne-empty w ws h.0) (split-join "," w ws (h.1, lacks ws h.2))

-- The principal that the claims stand for.
abbrev pub principal_of : Claims → Principal
principal_of c = record {
  type = c.principal_type;
  id = c.subject;
  roles = c.roles;
  outlet_ids = c.outlet_ids;
}

-- A service reads the principal of the claims from the headers that the Gateway writes, if no role
-- and no outlet is empty or has a comma.
pub from_request-set_trusted :
    (c : Claims) (h : Headers)
    → Words c.roles
    → Words c.outlet_ids
    → from_request (set_trusted c h) ≡ principal_of c
unfolding from_request set_trusted
from_request-set_trusted c h roles outlets =
    rw (listed-join c.roles roles, listed-join c.outlet_ids outlets) refl

abbrev nobody : Principal
nobody = record { type = ""; id = ""; roles = []; outlet_ids = [] }

-- Where the principal of a request that is passed on comes from.
pub data Source (parse : String → Option Claims) (h : Headers) (p : Principal) : Type 0 where
  anonymous : h.authorization ≡ "" → p ≡ nobody → Source parse h p
  bearer :
      (token : String) (c : Claims)
      → cut_prefix "Bearer " h.authorization ≡ some token
      → parse token ≡ some c
      → p ≡ from_request (set_trusted c (strip_trusted h))
      → Source parse h p

with_claims-eq-forwarded :
    (o : Option Claims) (h h' : Headers)
    → with_claims o h ≡ forwarded h'
    → (c : Claims) × (o ≡ some c) × (h' ≡ set_trusted c h)
unfolding with_claims
with_claims-eq-forwarded none h h' f = absurd (cc)
with_claims-eq-forwarded (some c) h h' f = (c, refl, cc)

with_token-eq-forwarded :
    (parse : String → Option Claims) (o : Option String) (h h' : Headers)
    → with_token parse o h ≡ forwarded h'
    → (token : String) × (c : Claims) × (o ≡ some token)
      × (parse token ≡ some c)
      × (h' ≡ set_trusted c h)
unfolding with_token
with_token-eq-forwarded parse none h h' f = absurd (cc)
with_token-eq-forwarded parse (some token) h h' f =
    let (c, e, q) = with_claims-eq-forwarded (parse token) h h' f in (token, c, refl, e, q)

tested :
    (b : Bool) (h h' : Headers) (o : Outcome)
    → (if b then forwarded h else o) ≡ forwarded h'
    → ((b ≡ true) × (h' ≡ h)) ⊎ (o ≡ forwarded h')
tested true h h' o f = inl (refl, cc)
tested false h h' o f = inr f

from_request-strip_trusted : (h : Headers) → from_request (strip_trusted h) ≡ nobody
unfolding from_request strip_trusted listed
from_request-strip_trusted h = refl

-- A request that the Gateway passes on has a principal only from the claims of a valid bearer
-- token: the headers that a client sends for it have no effect.
pub authenticate-Source :
    (parse : String → Option Claims) (h h' : Headers)
    → authenticate parse h ≡ forwarded h'
    → Source parse h (from_request h')
unfolding authenticate strip_trusted
authenticate-Source parse h h' f =
    elim (tested (str_eq h.authorization "") (strip_trusted h) h'
      (with_token parse (cut_prefix "Bearer " h.authorization) (strip_trusted h)) f) [
        | inl (e, q) ↦
            anonymous ((eq_iff h.authorization "").0 e)
              (ap from_request q ∙ from_request-strip_trusted h)
        | inr g ↦
            let (token, c, e, s, q) = with_token-eq-forwarded parse _ _ h' g in
            bearer token c e s (ap from_request q)
      ]
