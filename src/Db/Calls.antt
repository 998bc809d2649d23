-- ===== src/Db/Calls.antt =====
-- How a handler goes on after each call, one rule for a call in each state of the transaction.
use laundry_platform.Base.{ℕ, ◌≡◌, refl, sym, ap, subst₂, Bool, true, false, Option, none, some}
use laundry_platform.Db.{
  Session, Fetch, Exec, Done, M, applied, duplicate_key, refused_row, row, no_rows, unreadable,
  done, duplicate, failed, ◌>>=◌, query_pool, exec_pool, begin_tx, query_tx, exec_tx, commit, Reply,
  delivered, refused, reply_lost, continue, tick, fetched, exec_pool_on, begin_on, query_tx_on,
  exec_tx_on, commit_on,
}
use laundry_platform.Db.Runs.{Tx, idle, seeing, broken, View, Runs, Ends}

-- A call leaves the transaction as it is.
View-tick : {T : Type 0} (v : Tx T) (s : Session T) → View v s → View v (tick s)
View-tick idle s w = tt
View-tick (seeing x) s w = w
View-tick broken s w = w

module _ {T R B : Type 0} {t : T} {Q : R → T → Type 0} where
  pub Runs-query_pool :
      {v : Tx T} {A : Type 0} (q : T → Option A) (f : Fetch A → M T R B)
      → ((a : A) → q t ≡ some a → Runs t v (f (row a)) Q)
      → (q t ≡ none → Runs t v (f no_rows) Q)
      → Runs t v (f unreadable) Q
      → Runs t v (query_pool q >>= f) Q
  unfolding ◌>>=◌ query_pool
  Runs-query_pool {v} {A} q f some_row none_row bad = record {
    at = λ s e w. go s (s.net s.calls) (q s.tables) e (View-tick v s w) (ap q e);
  }
    where
      go :
          (s : Session T) (r : Reply) (o : Option A)
          → s.tables ≡ t
          → View v (tick s)
          → o ≡ q t
          → Ends Q (f (fetched r o) (tick s))
      go s delivered (some a) e w p = (some_row a (sym p)).at (tick s) e w
      go s delivered none e w p = (none_row (sym p)).at (tick s) e w
      go s refused o e w p = bad.at (tick s) e w
      go s reply_lost o e w p = bad.at (tick s) e w

  pub Runs-begin_tx :
      (f : Bool → M T R B)
      → Runs t (seeing t) (f true) Q
      → Runs t idle (f false) Q
      → Runs t idle (begin_tx >>= f) Q
  unfolding ◌>>=◌ begin_tx
  Runs-begin_tx f hopen shut = record { at = λ s e w. go s (s.net s.calls) e }
    where
      go :
          (s : Session T) (r : Reply)
          → s.tables ≡ t
          → Ends Q (continue (begin_on {R = R} r (tick s)).0 f (begin_on {R = R} r (tick s)).1)
      go s delivered e = hopen.at _ e (refl, e)
      go s refused e = shut.at _ e tt
      go s reply_lost e = shut.at _ e tt

  pub Runs-query_tx :
      {A : Type 0} (x : T) (q : T → Option A) (f : Fetch A → M T R B)
      → ((a : A) → q x ≡ some a → Runs t (seeing x) (f (row a)) Q)
      → (q x ≡ none → Runs t (seeing x) (f no_rows) Q)
      → Runs t broken (f unreadable) Q
      → Runs t (seeing x) (query_tx q >>= f) Q
  unfolding ◌>>=◌ query_tx
  Runs-query_tx {A} x q f some_row none_row bad = record {
    at = λ s e w. go s s.aborted (s.net s.calls) (q s.tx) refl e w.0 w.1 (ap q w.1);
  }
    where
      go :
          (s : Session T) (b : Bool) (r : Reply) (o : Option A)
          → s.aborted ≡ b
          → s.tables ≡ t
          → s.aborted ≡ false
          → s.tx ≡ x
          → o ≡ q x
          → Ends Q (
              continue
                (query_tx_on {R = R} b r o (tick s)).0
                f
                (query_tx_on {R = R} b r o (tick s)).1)
      go s true r o b e a y p = absurd (cc)
      go s false delivered (some u) b e a y p = (some_row u (sym p)).at (tick s) e (a, y)
      go s false delivered none b e a y p = (none_row (sym p)).at (tick s) e (a, y)
      go s false refused o b e a y p = bad.at _ e refl
      go s false reply_lost o b e a y p = bad.at _ e refl

  pub Runs-query_tx_broken :
      {A : Type 0} (q : T → Option A) (f : Fetch A → M T R B)
      → Runs t broken (f unreadable) Q
      → Runs t broken (query_tx q >>= f) Q
  unfolding ◌>>=◌ query_tx
  Runs-query_tx_broken q f bad = record { at = λ s e w. go s s.aborted (s.net s.calls) refl e w }
    where
      go :
          (s : Session T) (b : Bool) (r : Reply)
          → s.aborted ≡ b
          → s.tables ≡ t
          → s.aborted ≡ true
          → Ends Q (
              continue
                (query_tx_on {R = R} b r (q s.tx) (tick s)).0
                f
                (query_tx_on {R = R} b r (q s.tx) (tick s)).1)
      go s true r b e a = bad.at (tick s) e a
      go s false r b e a = absurd (cc)

  pub Runs-exec_tx :
      (x : T) (u : T → Exec T) (f : Done → M T R B)
      → ((n : ℕ) (y : T) → u x ≡ applied n y → Runs t (seeing y) (f (done n)) Q)
      → (u x ≡ duplicate_key → Runs t broken (f duplicate) Q)
      → Runs t broken (f failed) Q
      → Runs t (seeing x) (exec_tx u >>= f) Q
  unfolding ◌>>=◌ exec_tx
  Runs-exec_tx x u f good dup bad = record {
    at = λ s e w. go s s.aborted (s.net s.calls) (u s.tx) refl e w.0 (ap u w.1);
  }
    where
      go :
          (s : Session T) (b : Bool) (r : Reply) (o : Exec T)
          → s.aborted ≡ b
          → s.tables ≡ t
          → s.aborted ≡ false
          → o ≡ u x
          → Ends Q (
              continue
                (exec_tx_on {R = R} b r o (tick s)).0
                f
                (exec_tx_on {R = R} b r o (tick s)).1)
      go s true r o b e a p = absurd (cc)
      go s false delivered (applied n y) b e a p = (good n y (sym p)).at _ e (a, refl)
      go s false delivered duplicate_key b e a p = (dup (sym p)).at _ e refl
      go s false delivered refused_row b e a p = bad.at _ e refl
      go s false refused o b e a p = bad.at _ e refl
      go s false reply_lost o b e a p = bad.at _ e refl

  -- A statement that breaks no constraint.
  pub Runs-write :
      (x : T) (n : ℕ) (g : T → T) (f : Done → M T R B)
      → Runs t (seeing (g x)) (f (done n)) Q
      → Runs t broken (f failed) Q
      → Runs t (seeing x) (exec_tx (λ y. applied n (g y)) >>= f) Q
  Runs-write x n g f good bad =
      Runs-exec_tx x (λ y. applied n (g y)) f
        (λ k y e. keep k y (same_count k y e) (same_tables k y e)) (λ e. absurd (cc)) bad
    where
      same_count : (k : ℕ) (y : T) → applied n (g x) ≡ applied k y → n ≡ k
      same_count k y e = cc

      same_tables : (k : ℕ) (y : T) → applied n (g x) ≡ applied k y → g x ≡ y
      same_tables k y e = cc

      keep : (k : ℕ) (y : T) → n ≡ k → g x ≡ y → Runs t (seeing y) (f (done k)) Q
      keep k y p q = subst₂ (λ z w. Runs t (seeing z) (f (done w)) Q) q p good

  pub Runs-exec_tx_broken :
      (u : T → Exec T) (f : Done → M T R B)
      → Runs t broken (f failed) Q
      → Runs t broken (exec_tx u >>= f) Q
  unfolding ◌>>=◌ exec_tx
  Runs-exec_tx_broken u f bad = record { at = λ s e w. go s s.aborted (s.net s.calls) refl e w }
    where
      go :
          (s : Session T) (b : Bool) (r : Reply)
          → s.aborted ≡ b
          → s.tables ≡ t
          → s.aborted ≡ true
          → Ends Q (
              continue
                (exec_tx_on {R = R} b r (u s.tx) (tick s)).0
                f
                (exec_tx_on {R = R} b r (u s.tx) (tick s)).1)
      go s true r b e a = bad.at (tick s) e a
      go s false r b e a = absurd (cc)

  pub Runs-commit :
      (x : T) (f : Bool → M T R B)
      → Runs x idle (f true) Q
      → Runs x idle (f false) Q
      → Runs t idle (f false) Q
      → Runs t (seeing x) (commit >>= f) Q
  unfolding ◌>>=◌ commit
  Runs-commit x f good lost bad = record {
    at = λ s e w. go s s.aborted (s.net s.calls) refl e w.0 w.1;
  }
    where
      go :
          (s : Session T) (b : Bool) (r : Reply)
          → s.aborted ≡ b
          → s.tables ≡ t
          → s.aborted ≡ false
          → s.tx ≡ x
          → Ends Q
              (continue (commit_on {R = R} b r (tick s)).0 f (commit_on {R = R} b r (tick s)).1)
      go s true r b e a y = absurd (cc)
      go s false delivered b e a y = good.at _ y tt
      go s false refused b e a y = bad.at _ e tt
      go s false reply_lost b e a y = lost.at _ y tt

  pub Runs-commit_broken :
      (f : Bool → M T R B) → Runs t idle (f false) Q → Runs t broken (commit >>= f) Q
  unfolding ◌>>=◌ commit
  Runs-commit_broken f bad = record { at = λ s e w. go s s.aborted (s.net s.calls) refl e w }
    where
      go :
          (s : Session T) (b : Bool) (r : Reply)
          → s.aborted ≡ b
          → s.tables ≡ t
          → s.aborted ≡ true
          → Ends Q
              (continue (commit_on {R = R} b r (tick s)).0 f (commit_on {R = R} b r (tick s)).1)
      go s true r b e a = bad.at (tick s) e tt
      go s false r b e a = absurd (cc)

  pub Runs-exec_pool :
      (u : T → Exec T) (f : Done → M T R B)
      → ((n : ℕ) (y : T)
          → u t ≡ applied n y
          → Runs y idle (f (done n)) Q × Runs y idle (f failed) Q)
      → (u t ≡ duplicate_key → Runs t idle (f duplicate) Q)
      → Runs t idle (f failed) Q
      → Runs t idle (exec_pool u >>= f) Q
  unfolding ◌>>=◌ exec_pool
  Runs-exec_pool u f good dup bad = record {
    at = λ s e w. go s (s.net s.calls) (u s.tables) e (ap u e);
  }
    where
      go :
          (s : Session T) (r : Reply) (o : Exec T)
          → s.tables ≡ t
          → o ≡ u t
          → Ends Q (
              continue
                (exec_pool_on {R = R} r o (tick s)).0
                f
                (exec_pool_on {R = R} r o (tick s)).1)
      go s delivered (applied n y) e p = (good n y (sym p)).0.at _ refl tt
      go s delivered duplicate_key e p = (dup (sym p)).at _ e tt
      go s delivered refused_row e p = bad.at _ e tt
      go s refused o e p = bad.at _ e tt
      go s reply_lost (applied n y) e p = (good n y (sym p)).1.at _ refl tt
      go s reply_lost duplicate_key e p = bad.at _ e tt
      go s reply_lost refused_row e p = bad.at _ e tt
