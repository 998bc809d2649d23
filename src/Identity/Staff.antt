-- ===== src/Identity/Staff.antt =====
-- services/identity/internal/handler/staff_auth.go and refresh_logout.go: login, refresh and logout of
-- the staff. The hash of a token, the check of a password and the signing of an access token are
-- parameters, as are the generated refresh token and session id, and the clock.
pub mod Effect
pub mod Logout
use laundry_platform.Base.{
  ℕ, ◌+◌, String, List, [], ◌∷◌, ◌++◌, Option, none, some, Bool, true, false, ◌||◌, ◌&&◌, not,
  str_eq, ltb, is_some, find, find_key, update_key, update_where, exists, select, map,
  if◌then◌else◌,
}
use laundry_platform.Base.Text.{trim_space}
use laundry_platform.Db.{
  M, Exec, applied, duplicate_key, refused_row, Fetch, row, no_rows, unreadable, ◌>>=◌, ◌>>◌, pure,
  respond, respond_if, row_or, done_or, query_pool, exec_pool,
}

pub record User : Type 0 where
  pub id : String
  pub email : Option String
  pub phone : Option String
  pub full_name : String
  pub password_hash : String
  pub is_active : Bool
  pub last_login_at : Option ℕ

-- A role, or an outlet, of a user.
pub record Grant : Type 0 where
  pub user_id : String
  pub value : String

pub record Session : Type 0 where
  pub id : String
  pub user_id : String
  pub refresh_token_hash : String
  pub expires_at : ℕ
  pub revoked_at : Option ℕ

pub record Tables : Type 0 where
  pub users : List User
  pub user_roles : List Grant
  pub user_outlets : List Grant
  pub sessions : List Session

pub record AuthBody : Type 0 where
  pub access_token : String
  pub refresh_token : String
  pub user_id : String
  pub full_name : String
  pub roles : List String

pub data Response : Type 0 where
  error : ℕ → String → Response
  json : ℕ → AuthBody → Response
  no_content : Response

abbrev pub internal_error : Response
internal_error = error 500 "INTERNAL_ERROR"

abbrev pub Handler : Type 0 → Type 0
Handler A = M Tables Response A

-- What the service calls: `hashToken`, `security.VerifyPassword` (an error is `false`) and
-- `authtoken.Issue` for a user with roles and outlets, with the lifetime of a refresh token.
pub record Calls : Type 0 where
  pub hash_token : String → String
  pub verify_password : String → String → Bool
  pub issue : String → List String → List String → Option String
  pub refresh_ttl : ℕ

-- What one request generates, and the time.
pub record Fresh : Type 0 where
  pub refresh_token : String
  pub session_id : String
  pub now : ℕ

abbrev pub user_key : User → String
user_key u = u.id

abbrev pub session_key : Session → String
session_key s = s.id

unfoldable pub grants_of : String → List Grant → List String
grants_of user_id gs = map (λ (g : Grant). g.value) (select (λ g. str_eq g.user_id user_id) gs)

-- `rolesForUser` and `outletsForUser`.
unfoldable pub roles_for_user : String → Handler (Fetch (List String))
unfolding grants_of
roles_for_user user_id = query_pool (λ t. some (grants_of user_id t.user_roles))

unfoldable pub outlets_for_user : String → Handler (Fetch (List String))
unfolding grants_of
outlets_for_user user_id = query_pool (λ t. some (grants_of user_id t.user_outlets))

-- `v, _ := ...`: after an error the list is empty.
unfoldable pub or_empty : Fetch (List String) → List String
or_empty (row xs) = xs
or_empty no_rows = []
or_empty unreadable = []

unfoldable pub name_or_empty : Fetch String → String
name_or_empty (row s) = s
name_or_empty no_rows = ""
name_or_empty unreadable = ""

-- INSERT INTO sessions: unique id and hash, and a user that is there.
unfoldable pub insert_session : Session → Tables → Exec Tables
insert_session s t =
    if exists
      (λ (x : Session). str_eq x.id s.id || str_eq x.refresh_token_hash s.refresh_token_hash)
      t.sessions
    then duplicate_key
    else if is_some (find_key user_key s.user_id t.users)
    then applied 1 (record t { sessions = t.sessions ++ s ∷ [] })
    else refused_row

abbrev pub session_of : Calls → Fresh → String → Session
session_of calls fresh user_id = record {
  id = fresh.session_id;
  user_id = user_id;
  refresh_token_hash = calls.hash_token fresh.refresh_token;
  expires_at = fresh.now + calls.refresh_ttl;
  revoked_at = none;
}

unfoldable pub issue_with :
    Calls → Fresh → String → String → List String → Option String → Handler Response
issue_with calls fresh user_id full_name roles none = respond internal_error
issue_with calls fresh user_id full_name roles (some access) = do
  inserted ← exec_pool (insert_session (session_of calls fresh user_id))
  done_or internal_error internal_error inserted
  respond (
      json 200 (record {
        access_token = access;
        refresh_token = fresh.refresh_token;
        user_id = user_id;
        full_name = full_name;
        roles = roles;
      }))

unfoldable pub issue_staff_session :
    Calls → Fresh → String → String → List String → List String → Handler Response
issue_staff_session calls fresh user_id full_name roles outlets =
    issue_with calls fresh user_id full_name roles (calls.issue user_id roles outlets)

abbrev pub is_text : String → Option String → Bool
is_text s none = false
is_text s (some x) = str_eq x s

unfoldable pub user_by_identifier : String → Tables → Option User
user_by_identifier identifier t =
    find (λ (u : User). is_text identifier u.email || is_text identifier u.phone) t.users

-- UPDATE users SET last_login_at = now()
unfoldable pub touch_user : String → ℕ → Tables → Exec Tables
touch_user id now t = applied 1 (record t {
  users = update_key user_key id (λ u. record u { last_login_at = some now }) t.users;
})

unfoldable pub staff_login : Calls → Fresh → String → String → Handler Response
staff_login calls fresh identifier password = do
  respond_if (str_eq (trim_space identifier) "" || str_eq password "")
      (error 422 "VALIDATION_ERROR")
  found ← query_pool (user_by_identifier (trim_space identifier))
  u ← row_or (error 401 "INVALID_CREDENTIALS") internal_error found
  respond_if (not u.is_active) (error 423 "ACCOUNT_INACTIVE")
  respond_if (not (calls.verify_password password u.password_hash))
      (error 401 "INVALID_CREDENTIALS")
  granted ← roles_for_user u.id
  roles ← row_or internal_error internal_error granted
  placed ← outlets_for_user u.id
  outlets ← row_or internal_error internal_error placed
  touched ← exec_pool (touch_user u.id fresh.now)
  issue_staff_session calls fresh u.id u.full_name roles outlets

unfoldable pub session_by_hash : String → Tables → Option Session
session_by_hash hash t = find (λ (s : Session). str_eq s.refresh_token_hash hash) t.sessions

unfoldable pub revoke_id : String → ℕ → List Session → List Session
revoke_id id now ss = update_key session_key id (λ s. record s { revoked_at = some now }) ss

-- `revokedAt != nil || time.Now().After(expiresAt)`
unfoldable pub is_over : Session → ℕ → Bool
is_over s now = is_some s.revoked_at || ltb s.expires_at now

-- The new session of a user whose old one was dealt with; the errors of the queries are ignored.
unfoldable pub renew : Calls → Fresh → String → Handler Response
renew calls fresh user_id = do
  named ←
      query_pool
        (λ t. elim (find_key user_key user_id t.users) [ none ↦ none | some u ↦ some u.full_name ])
  granted ← roles_for_user user_id
  placed ← outlets_for_user user_id
  issue_staff_session calls fresh user_id (name_or_empty named) (or_empty granted) (or_empty placed)

-- After an error of the query other than no rows, `expiresAt` is zero and so the answer is 401 too.
unfoldable pub staff_refresh : Calls → Fresh → String → Handler Response
staff_refresh calls fresh token = do
  found ← query_pool (session_by_hash (calls.hash_token token))
  s ← row_or (error 401 "TOKEN_REVOKED") (error 401 "TOKEN_REVOKED") found
  respond_if (is_over s fresh.now) (error 401 "TOKEN_REVOKED")
  revoked ← exec_pool (λ t. applied 1 (record t { sessions = revoke_id s.id fresh.now t.sessions }))
  renew calls fresh s.user_id

-- UPDATE sessions SET revoked_at = now() WHERE refresh_token_hash = $1 AND revoked_at IS NULL
unfoldable pub revoke_hash : String → ℕ → List Session → List Session
revoke_hash hash now ss =
    update_where (λ s. str_eq s.refresh_token_hash hash && not (is_some s.revoked_at))
      (λ s. record s { revoked_at = some now }) ss

unfoldable pub staff_logout : Calls → ℕ → String → Handler Response
staff_logout calls now token = do
  revoked ←
      exec_pool (λ t.
        applied 1 (record t { sessions = revoke_hash (calls.hash_token token) now t.sessions }))
  respond no_content
