-- ===== src/Shared/Idempotency/Replay.antt =====
-- A request that is sent again gets the response that was given.
use laundry_platform.Base.{
  String, List, [], ◌∷◌, ◌++◌, Option, none, some, Bool, true, false, not, ◌≡◌, refl, ap, ◌∙◌,
  arith, str_eq, eq_refl, ltb, find, if◌then◌else◌, Bool-cases, inl, inr,
}
use laundry_platform.Db.{Reply, delivered, refused, reply_lost}
use laundry_platform.Shared.Idempotency.{
  Stored, Request, Response, error, replayed, handled, is_at, insert_key, run_first, run_known,
  looked_up, with_body, require,
}

-- A row that is found stays the one that is found.
find-append :
    {A : Type 0} (p : A → Bool) (rows : List A) (x y : A)
    → find p rows ≡ some x
    → find p (rows ++ y ∷ []) ≡ some x
find-append p [] x y e = absurd (cc)
find-append p (r ∷ rows) x y e = ground (arith, find-append p rows x y, e)

find-append_none :
    {A : Type 0} (p : A → Bool) (rows : List A) (y : A)
    → find p rows ≡ none
    → p y ≡ true
    → find p (rows ++ y ∷ []) ≡ some y
find-append_none p [] y e q = ground (arith, q)
find-append_none p (r ∷ rows) y e q = ground (arith, find-append_none p rows y, e, q)

module _ {S R : Type 0} (hash : String → String) (endpoint : String)
    (next : R → String → S → Response × S) where
  module _ (key : String) (r : Stored) where
    -- No request takes a row away.
    insert-keeps :
        (reply : Reply) (x : Stored) (rows : List Stored)
        → find (is_at key endpoint) rows ≡ some r
        → find (is_at key endpoint) (insert_key reply x rows) ≡ some r
    unfolding insert_key
    insert-keeps delivered x rows e = find-append (is_at key endpoint) rows r x e
    insert-keeps refused x rows e = e
    insert-keeps reply_lost x rows e = find-append (is_at key endpoint) rows r x e

    first-keeps :
        (req : Request R) (body : String) (rows : List Stored) (s : S)
        → find (is_at key endpoint) rows ≡ some r
        → find (is_at key endpoint) (run_first hash endpoint next req body rows s).1 ≡ some r
    unfolding run_first
    first-keeps req body rows s e = elim (Bool-cases (ltb (next req.rest body s).0.status 500)) [
      | inl q ↦ rw q (insert-keeps req.insert _ rows e)
      | inr q ↦ rw q e
    ]

    looked_up-keeps :
        (req : Request R) (body : String) (reply : Reply) (o : Option Stored) (rows : List Stored)
        (s : S)
        → find (is_at key endpoint) rows ≡ some r
        → find (is_at key endpoint) (looked_up hash endpoint next req body reply o rows s).1
          ≡ some r
    unfolding looked_up
    looked_up-keeps req body delivered none rows s e = first-keeps req body rows s e
    looked_up-keeps req body delivered (some x) rows s e = e
    looked_up-keeps req body refused o rows s e = e
    looked_up-keeps req body reply_lost o rows s e = e

    body-keeps :
        (req : Request R) (b : Option String) (rows : List Stored) (s : S)
        → find (is_at key endpoint) rows ≡ some r
        → find (is_at key endpoint) (with_body hash endpoint next req b rows s).1 ≡ some r
    unfolding with_body
    body-keeps req none rows s e = e
    body-keeps req (some body) rows s e = looked_up-keeps req body req.lookup _ rows s e

    require-keeps :
        (req : Request R) (rows : List Stored) (s : S)
        → find (is_at key endpoint) rows ≡ some r
        → find (is_at key endpoint) (require hash endpoint next req rows s).1 ≡ some r
    unfolding require
    require-keeps req rows s e = elim (Bool-cases (str_eq req.key "")) [
      | inl q ↦ rw q e
      | inr q ↦ rw q (body-keeps req req.body rows s e)
    ]

  -- The requests of some time, one after the other.
  unfoldable pub require_all : List (Request R) → List Stored → S → List Stored × S
  require_all [] rows s = (rows, s)
  require_all (q ∷ qs) rows s =
      let (a, rows', s') = require hash endpoint next q rows s in require_all qs rows' s'

  all-keeps :
      (key : String) (r : Stored) (qs : List (Request R)) (rows : List Stored) (s : S)
      → find (is_at key endpoint) rows ≡ some r
      → find (is_at key endpoint) (require_all qs rows s).0 ≡ some r
  unfolding require_all
  all-keeps key r [] rows s e = e
  all-keeps key r (q ∷ qs) rows s e =
      all-keeps key r qs (require hash endpoint next q rows s).1
        (require hash endpoint next q rows s).2 (require-keeps key r q rows s e)

  -- The row that a first request leaves.
  abbrev row_of : Request R → String → Response → Stored
  row_of req body res = record {
    key = req.key;
    endpoint = endpoint;
    request_hash = hash body;
    response_status = res.status;
    response_body = res.body;
  }

  kept-row :
      (req : Request R) (body : String) (rows : List Stored) (s : S)
      → str_eq req.key "" ≡ false
      → req.body ≡ some body
      → req.lookup ≡ delivered
      → req.insert ≡ delivered
      → find (is_at req.key endpoint) rows ≡ none
      → ltb (next req.rest body s).0.status 500 ≡ true
      → find (is_at req.key endpoint) (require hash endpoint next req rows s).1
        ≡ some (row_of req body (next req.rest body s).0)
  unfolding require with_body looked_up run_first insert_key is_at
  kept-row req body rows s named given looked stored free below =
      rw (named, given, looked, free, below, stored)
        (find-append_none (is_at req.key endpoint) rows (row_of req body (next req.rest body s).0)
          free (own_key req body (next req.rest body s).0))
    where
      own_key :
          (req : Request R) (body : String) (res : Response)
          → is_at req.key endpoint (row_of req body res) ≡ true
      own_key req body res = rw (eq_refl req.key, eq_refl endpoint) refl

  answer-known :
      (req : Request R) (body : String) (rows : List Stored) (s : S) (r : Stored)
      → str_eq req.key "" ≡ false
      → req.body ≡ some body
      → req.lookup ≡ delivered
      → find (is_at req.key endpoint) rows ≡ some r
      → require hash endpoint next req rows s ≡ (run_known hash endpoint next body r, rows, s)
  unfolding require with_body looked_up
  answer-known req body rows s r named given looked found = rw (named, given, looked, found) refl

  answer-first :
      (req : Request R) (body : String) (rows : List Stored) (s : S)
      → str_eq req.key "" ≡ false
      → req.body ≡ some body
      → req.lookup ≡ delivered
      → find (is_at req.key endpoint) rows ≡ none
      → (require hash endpoint next req rows s).0 ≡ handled (next req.rest body s).0
  unfolding require with_body looked_up run_first
  answer-first req body rows s named given looked free = rw (named, given, looked, free) refl

  choice : {A : Type 0} (b : Bool) (x y : A) → (if not b then x else y) ≡ (if b then y else x)
  choice true x y = refl
  choice false x y = refl

  -- After a request with a key that has no row, whose body is read, whose two statements come
  -- through and whose response is below 500, and after any further requests to the endpoint: a
  -- request with the same key gets the first response again if the hashes of the bodies are equal,
  -- and 409 otherwise, and neither runs the handler nor changes a row.
  pub replays :
      (first again : Request R) (body other : String) (rows : List Stored) (s : S)
      (between : List (Request R))
      → str_eq first.key "" ≡ false
      → first.body ≡ some body
      → first.lookup ≡ delivered
      → first.insert ≡ delivered
      → find (is_at first.key endpoint) rows ≡ none
      → ltb (next first.rest body s).0.status 500 ≡ true
      → again.key ≡ first.key
      → again.body ≡ some other
      → again.lookup ≡ delivered
      → let (answer, rows', s') = require hash endpoint next first rows s in
        let (rows'', s'') = require_all between rows' s' in
        (answer ≡ handled (next first.rest body s).0)
        × (require hash endpoint next again rows'' s'' ≡ (
          if str_eq (hash body) (hash other)
              then replayed (next first.rest body s).0
              else error 409 "IDEMPOTENCY_KEY_REUSE",
          rows'',
          s'',
        ))
  unfolding run_known
  replays first again body other rows s between named given looked stored free below same given'
        looked' =
      let x = require hash endpoint next first rows s in
      let y = require_all between x.1 x.2 in
      let row = row_of first body (next first.rest body s).0 in
      let stays =
        all-keeps first.key row between x.1 x.2
          (kept-row first body rows s named given looked stored free below) in
      (
        answer-first first body rows s named given looked free,
        answer-known again other y.0 y.1 row (ap (λ k. str_eq k "") same ∙ named) given' looked'
              (ap (λ k. find (is_at k endpoint) y.0) same ∙ stays)
            ∙ ap (λ a. (a, y.0, y.1)) (choice (str_eq (hash body) (hash other)) _ _),
      )
