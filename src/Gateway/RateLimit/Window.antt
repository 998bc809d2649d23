-- ===== src/Gateway/RateLimit/Window.antt =====
-- How many requests of one client are passed on within one window.
use laundry_platform.Base.{
  ℕ, ◌+◌, ◌-◌, ◌<◌, List, [], ◌∷◌, Option, none, some, true, false, ◌≡◌, refl, arith, leb, length,
  if◌then◌else◌,
}
use laundry_platform.Gateway.RateLimit.{has_expired, incr, Request, expire_first, per_ip, passed_on}

-- INCR comes through for each of the requests, and none is later than the window's end.
abbrev pub Within : ℕ → List Request → Type 0
Within end [] = Unit
Within end (q ∷ qs) = (q.incr_ok ≡ true) × (q.now < end) × Within end qs

-- The lesser of two numbers.
abbrev pub min : ℕ → ℕ → ℕ
min a b = if leb a b then a else b

-- In the course of a window that ends at `end`.
passed_on-window :
    (limit window end n : ℕ) (qs : List Request) (e : Option ℕ)
    → 0 < n
    → ((now : ℕ) → now < end → has_expired now e ≡ false)
    → Within end qs
    → passed_on limit window qs (some (record { count = n; expires_at = e }))
      ≡ min (length qs) (limit - n)
unfolding passed_on per_ip expire_first incr
passed_on-window limit window end n [] e pos live w = ground arith
passed_on-window limit window end n (q ∷ qs) e pos live w =
    ground
      (arith, live q.now w.1, passed_on-window limit window end (n + 1) qs e (omega arith) live w.2)

not_yet : (now at : ℕ) → now < at → has_expired now (some at) ≡ false
not_yet now at h = ground arith

-- From the first request of a window on, if each INCR comes through and none of the requests is
-- later than the window's end, as many requests are passed on as the limit allows, and no more.
pub passed_on-eq-min :
    (limit window : ℕ) (q : Request) (qs : List Request)
    → q.incr_ok ≡ true
    → Within (q.now + window) qs
    → passed_on limit window (q ∷ qs) none ≡ min (length (q ∷ qs)) limit
unfolding passed_on per_ip expire_first incr
passed_on-eq-min limit window q qs ok w = ground (
  arith,
  passed_on-window limit window (q.now + window) 1 qs (some (q.now + window)) (omega arith)
      (λ now h. not_yet now (q.now + window) h) w,
  passed_on-window limit window (q.now + window) 1 qs none (omega arith) (λ now h. refl) w,
)

-- Without its expiry a counter is never reset: of any requests that follow, at any times, only as
-- many are passed on as the limit allows.
pub passed_on-lost_expiry :
    (limit window end : ℕ) (q : Request) (qs : List Request)
    → q.incr_ok ≡ true
    → q.expire_ok ≡ false
    → Within end qs
    → passed_on limit window (q ∷ qs) none ≡ min (length (q ∷ qs)) limit
unfolding passed_on per_ip expire_first incr
passed_on-lost_expiry limit window end q qs ok lost w =
    ground (arith, passed_on-window limit window end 1 qs none (omega arith) (λ now h. refl) w)
