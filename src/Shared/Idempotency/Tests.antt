-- ===== src/Shared/Idempotency/Tests.antt =====
-- Runs of the middleware around a handler that counts.
use laundry_platform.Base.{ℕ, ◌+◌, String, [], ◌∷◌, some, ◌≡◌, refl}
use laundry_platform.Db.{delivered}
use laundry_platform.Shared.Idempotency.{Request, Response, replayed, handled, require}
use laundry_platform.Shared.Idempotency.Replay.{require_all, replays}

abbrev same : String → String
same body = body

-- The handler counts its calls.
abbrev count : Unit {0} → String → ℕ → Response × ℕ
count other body n = (record { status = 201; body = body }, n + 1)

abbrev ask : String → String → Request (Unit {0})
ask key body = record {
  key = key;
  rest = tt;
  body = some body;
  lookup = delivered;
  insert = delivered;
}

-- The same key with the same body, and in between another key: the handler runs twice, not thrice.
replays_example :
    let (answer, rows, n) = require same "POST /orders" count (ask "k1" "b1") [] 0 in
    let (rows', n') = require_all same "POST /orders" count (ask "k2" "b2" ∷ []) rows n in
    (answer ≡ handled (record { status = 201; body = "b1" }))
    × (require same "POST /orders" count (ask "k1" "b1") rows' n'
        ≡ (replayed (record { status = 201; body = "b1" }), rows', n'))
replays_example =
    replays same "POST /orders" count (ask "k1" "b1") (ask "k1" "b1") "b1" "b1" [] 0
      (ask "k2" "b2" ∷ []) refl refl refl refl refl refl refl refl refl
