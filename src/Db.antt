-- ===== src/Db.antt =====
-- What a handler sees of PostgreSQL through pgx: the pool `h.Pool` and one open transaction `tx`.
-- The SQL texts of the handlers are functions on tables; whether a call comes through is chosen
-- from outside, one `Reply` for each call in turn.
pub mod Runs
pub mod Calls
use laundry_platform.Base.{ℕ, ◌+◌, Bool, true, false, Option, none, some, if◌then◌else◌}

-- One call over the network: it is carried out and answered, it is not carried out, or it is
-- carried out and the answer is lost.
pub data Reply : Type 0 where
  delivered refused reply_lost : Reply

-- `tables` is what is committed, `tx` what the open transaction sees. PostgreSQL ignores every
-- command of a transaction after a failed one, and pgx then reports an error for the commit.
pub record Session (T : Type 0) : Type 0 where
  pub net : ℕ → Reply
  pub calls : ℕ
  pub tables : T
  pub tx : T
  pub aborted : Bool

unfoldable pub start : {T : Type 0} → (ℕ → Reply) → T → Session T
start net t = record { net = net; calls = 0; tables = t; tx = t; aborted = false }

-- Every call is delivered.
abbrev pub calm : ℕ → Reply
calm n = delivered

-- `QueryRow(...).Scan(...)`: a row, `pgx.ErrNoRows`, or another error.
pub data Fetch (A : Type 0) : Type 0 where
  row : A → Fetch A
  no_rows : Fetch A
  unreadable : Fetch A

-- What a statement does to the tables: it changes some rows, it breaks a unique index, or it
-- breaks another constraint.
pub data Exec (T : Type 0) : Type 0 where
  applied : ℕ → T → Exec T
  duplicate_key : Exec T
  refused_row : Exec T

-- What `Exec(...)` returns: the number of rows, a unique violation, or another error.
pub data Done : Type 0 where
  done : ℕ → Done
  duplicate : Done
  failed : Done

-- A handler goes on with a value, or it has written its response and returned.
pub data Result (R A : Type 0) : Type 0 where
  ok : A → Result R A
  exit : R → Result R A

abbrev pub M : Type 0 → Type 0 → Type 0 → Type 0
M T R A = Session T → Result R A × Session T

module _ {T R A : Type 0} where
  unfoldable pub pure : A → M T R A
  pure a s = (ok a, s)

  -- `respond...; return`.
  unfoldable pub respond : R → M T R A
  respond r s = (exit r, s)

module _ {T R A B : Type 0} where
  abbrev pub continue : Result R A → (A → M T R B) → M T R B
  continue (ok a) f s = f a s
  continue (exit r) f s = (exit r, s)

  infixl 5 ◌>>=◌ ◌>>◌
  unfoldable pub ◌>>=◌ : M T R A → (A → M T R B) → M T R B
  unfolding pure respond
  ◌>>=◌ m f s = let (r, s') = m s in continue r f s'

  abbrev pub ◌>>◌ : M T R A → M T R B → M T R B
  m >> k = m >>= λ _. k

-- A call of a function that returns a value of its own: what it returns is what the caller gets.
abbrev handed : {T R A : Type 0} → Result A A × Session T → Result R A × Session T
handed (exit a, s) = (ok a, s)
handed (ok a, s) = (ok a, s)

unfoldable pub returned : {T R A : Type 0} → M T A A → M T R A
returned m s = handed (m s)

-- `if c { respond...; return }`.
unfoldable pub respond_if : {T R : Type 0} → Bool → R → M T R (Unit {0})
respond_if true r s = (exit r, s)
respond_if false r s = (ok tt, s)

-- A chain of tests that each end in `respond...; return`.
unfoldable pub respond_some : {T R : Type 0} → Option R → M T R (Unit {0})
respond_some none s = (ok tt, s)
respond_some (some r) s = (exit r, s)

-- A call over the network.
abbrev tick : {T : Type 0} → Session T → Session T
tick s = record s { calls = s.calls + 1 }

abbrev fetched : {A : Type 0} → Reply → Option A → Fetch A
fetched delivered (some a) = row a
fetched delivered none = no_rows
fetched refused o = unreadable
fetched reply_lost o = unreadable

abbrev apply_to : {T : Type 0} → Exec T → T → T
apply_to (applied n t') t = t'
apply_to duplicate_key t = t
apply_to refused_row t = t

abbrev reported : {T : Type 0} → Exec T → Done
reported (applied n t) = done n
reported duplicate_key = duplicate
reported refused_row = failed

module _ {T R : Type 0} where
  -- `h.Pool.QueryRow`.
  unfoldable pub query_pool : {A : Type 0} → (T → Option A) → M T R (Fetch A)
  query_pool q s = (ok (fetched (s.net s.calls) (q s.tables)), tick s)

  -- `h.Pool.Exec`: a statement that commits by itself.
  abbrev exec_pool_on : Reply → Exec T → Session T → Result R Done × Session T
  exec_pool_on delivered e s = (ok (reported e), record s { tables = apply_to e s.tables })
  exec_pool_on refused e s = (ok failed, s)
  exec_pool_on reply_lost e s = (ok failed, record s { tables = apply_to e s.tables })

  unfoldable pub exec_pool : (T → Exec T) → M T R Done
  exec_pool f s = exec_pool_on (s.net s.calls) (f s.tables) (tick s)

  -- `h.Pool.Begin`.
  abbrev begin_on : Reply → Session T → Result R Bool × Session T
  begin_on delivered s = (ok true, record s { tx = s.tables; aborted = false })
  begin_on refused s = (ok false, s)
  begin_on reply_lost s = (ok false, s)

  unfoldable pub begin_tx : M T R Bool
  begin_tx s = begin_on (s.net s.calls) (tick s)

  -- `tx.QueryRow`.
  abbrev query_tx_on :
      {A : Type 0} → Bool → Reply → Option A → Session T → Result R (Fetch A) × Session T
  query_tx_on true reply o s = (ok unreadable, s)
  query_tx_on false delivered o s = (ok (fetched delivered o), s)
  query_tx_on false refused o s = (ok unreadable, record s { aborted = true })
  query_tx_on false reply_lost o s = (ok unreadable, record s { aborted = true })

  unfoldable pub query_tx : {A : Type 0} → (T → Option A) → M T R (Fetch A)
  query_tx q s = query_tx_on s.aborted (s.net s.calls) (q s.tx) (tick s)

  -- `tx.Exec`.
  abbrev exec_tx_done : Exec T → Session T → Result R Done × Session T
  exec_tx_done (applied n t) s = (ok (done n), record s { tx = t })
  exec_tx_done duplicate_key s = (ok duplicate, record s { aborted = true })
  exec_tx_done refused_row s = (ok failed, record s { aborted = true })

  abbrev exec_tx_on : Bool → Reply → Exec T → Session T → Result R Done × Session T
  exec_tx_on true reply e s = (ok failed, s)
  exec_tx_on false delivered e s = exec_tx_done e s
  exec_tx_on false refused e s = (ok failed, record s { aborted = true })
  exec_tx_on false reply_lost e s = (ok failed, record s { aborted = true })

  unfoldable pub exec_tx : (T → Exec T) → M T R Done
  exec_tx f s = exec_tx_on s.aborted (s.net s.calls) (f s.tx) (tick s)

  -- `tx.Commit`: with a lost reply the handler sees an error although the rows are there.
  abbrev commit_on : Bool → Reply → Session T → Result R Bool × Session T
  commit_on true reply s = (ok false, s)
  commit_on false delivered s = (ok true, record s { tables = s.tx })
  commit_on false refused s = (ok false, s)
  commit_on false reply_lost s = (ok false, record s { tables = s.tx })

  unfoldable pub commit : M T R Bool
  commit s = commit_on s.aborted (s.net s.calls) (tick s)

  -- `if err != nil { respond...; return }` after each kind of call.
  unfoldable pub need : R → M T R Bool → M T R (Unit {0})
  unfolding ◌>>=◌ respond_if
  need r m = do fine ← m; if fine then pure tt else respond r

  unfoldable pub row_or : {A : Type 0} → R → R → Fetch A → M T R A
  unfolding pure respond
  row_or missing broken (row a) = pure a
  row_or missing broken no_rows = respond missing
  row_or missing broken unreadable = respond broken

  unfoldable pub done_or : R → R → Done → M T R (Unit {0})
  unfolding pure respond
  done_or taken broken (done n) = pure tt
  done_or taken broken duplicate = respond taken
  done_or taken broken failed = respond broken
