-- ===== src/Shared/Idempotency.antt =====
-- shared/idempotency/idempotency.go: `Require`, around the handler of an endpoint. The hash of a body
-- (SHA-256) and the handler are parameters; the handler has a state of its own.
pub mod Replay
mod Tests
use laundry_platform.Base.{
  ℕ, String, List, [], ◌∷◌, ◌++◌, Option, none, some, Bool, ◌&&◌, not, str_eq, ltb, find,
  if◌then◌else◌,
}
use laundry_platform.Db.{Reply, delivered, refused, reply_lost}

-- A row of idempotency_keys.
pub record Stored : Type 0 where
  pub key : String
  pub endpoint : String
  pub request_hash : String
  pub response_status : ℕ
  pub response_body : String

-- A request with its key; `none` is a body that cannot be read. `rest` is what else
-- the handler reads (path, headers and principal). `lookup` and `insert` are the replies of the
-- database to the two statements.
pub record Request (R : Type 0) : Type 0 where
  pub key : String
  pub rest : R
  pub body : Option String
  pub lookup : Reply
  pub insert : Reply

pub record Response : Type 0 where
  pub status : ℕ
  pub body : String

-- What the client gets: an error of the middleware, a stored response, or the handler's.
pub data Answer : Type 0 where
  error : ℕ → String → Answer
  replayed : Response → Answer
  handled : Response → Answer

unfoldable pub is_at : String → String → Stored → Bool
is_at key endpoint r = str_eq r.key key && str_eq r.endpoint endpoint

-- INSERT ... ON CONFLICT (key, endpoint) DO NOTHING, for a key that has no row; its error is ignored.
unfoldable pub insert_key : Reply → Stored → List Stored → List Stored
insert_key delivered r rows = rows ++ r ∷ []
insert_key refused r rows = rows
insert_key reply_lost r rows = rows ++ r ∷ []

module _ {S R : Type 0} (hash : String → String) (endpoint : String)
    (next : R → String → S → Response × S) where
  -- The first time that a key is seen: the handler runs, and its response is kept below 500.
  unfoldable pub run_first : Request R → String → List Stored → S → Answer × List Stored × S
  unfolding insert_key
  run_first req body rows s =
      let (res, s') = next req.rest body s in
      let row : Stored = record {
        key = req.key;
        endpoint = endpoint;
        request_hash = hash body;
        response_status = res.status;
        response_body = res.body;
      } in
      (handled res, (if ltb res.status 500 then insert_key req.insert row rows else rows), s')

  unfoldable pub run_known : String → Stored → Answer
  run_known body r =
      if not (str_eq r.request_hash (hash body))
      then error 409 "IDEMPOTENCY_KEY_REUSE"
      else replayed (record { status = r.response_status; body = r.response_body })

  -- The switch on what the query returned.
  unfoldable pub looked_up :
      Request R → String → Reply → Option Stored → List Stored → S → Answer × List Stored × S
  unfolding run_known run_first
  looked_up req body delivered (some r) rows s = (run_known body r, rows, s)
  looked_up req body delivered none rows s = run_first req body rows s
  looked_up req body refused o rows s = (error 500 "INTERNAL_ERROR", rows, s)
  looked_up req body reply_lost o rows s = (error 500 "INTERNAL_ERROR", rows, s)

  unfoldable pub with_body : Request R → Option String → List Stored → S → Answer × List Stored × S
  unfolding looked_up is_at
  with_body req none rows s = (error 400 "MALFORMED_REQUEST", rows, s)
  with_body req (some body) rows s =
      looked_up req body req.lookup (find (is_at req.key endpoint) rows) rows s

  unfoldable pub require : Request R → List Stored → S → Answer × List Stored × S
  unfolding with_body
  require req rows s =
      if str_eq req.key ""
      then (error 400 "IDEMPOTENCY_KEY_REQUIRED", rows, s)
      else with_body req req.body rows s
