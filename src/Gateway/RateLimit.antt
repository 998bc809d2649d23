-- ===== src/Gateway/RateLimit.antt =====
-- gateway/internal/ratelimit/ratelimit.go, `PerIP`, over the counter that Redis keeps for one key.
-- Redis is a parameter by its answers: INCR starts at 1 for a key that is not there or has expired,
-- and a key without an expiry is kept.
pub mod Window
use laundry_platform.Base.{
  ℕ, ◌+◌, List, [], ◌∷◌, Option, none, some, Bool, true, false, ◌==◌, ltb, leb, if◌then◌else◌,
}

pub record Counter : Type 0 where
  pub count : ℕ
  pub expires_at : Option ℕ

abbrev pub has_expired : ℕ → Option ℕ → Bool
has_expired now none = false
has_expired now (some at) = leb at now

unfoldable pub incr : ℕ → Option Counter → Counter
incr now none = record { count = 1; expires_at = none }
incr now (some c) =
    if has_expired now c.expires_at
    then record { count = 1; expires_at = none }
    else record c { count = c.count + 1 }

-- A request at a time, with whether the INCR and the EXPIRE come through.
pub record Request : Type 0 where
  pub now : ℕ
  pub incr_ok : Bool
  pub expire_ok : Bool

-- EXPIRE after the first INCR; its error is ignored.
unfoldable pub expire_first : ℕ → Request → Counter → Counter
expire_first window q c =
    if c.count == 1
    then (if q.expire_ok then record c { expires_at = some (q.now + window) } else c)
    else c

-- Whether the request is passed on, and the counter after it.
unfoldable pub per_ip : ℕ → ℕ → Request → Option Counter → Bool × Option Counter
unfolding incr expire_first
per_ip limit window q stored =
    if q.incr_ok
    then (let c = expire_first window q (incr q.now stored) in
        (if ltb limit c.count then false else true, some c))
    else (true, stored)

-- How many of a sequence of requests are passed on.
unfoldable pub passed_on : ℕ → ℕ → List Request → Option Counter → ℕ
unfolding per_ip
passed_on limit window [] stored = 0
passed_on limit window (q ∷ qs) stored =
    let (ok, stored') = per_ip limit window q stored in
    (if ok then 1 else 0) + passed_on limit window qs stored'
