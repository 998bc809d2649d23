-- ===== src/Core/Tax/Effect.antt =====
-- `set_tax_rate` on every branch, and the rate that is active after it.
use laundry_platform.Base.{
  ℕ, String, List, [], ◌∷◌, ◌++◌, Option, none, some, Bool, true, false, not, ◌≡◌, refl, ◌∙◌, ap,
  ◌⊎◌, inl, inr, arith, find, is_some, str_eq, ◌||◌,
}
use laundry_platform.Db.{applied, done_or}
use laundry_platform.Db.Runs.{
  Runs, Runs-respond, Runs-pure, Runs-need, Runs-respond_bind, Runs-respond_if, idle,
}
use laundry_platform.Db.Calls.{Runs-begin_tx, Runs-exec_tx, Runs-write, Runs-commit}
use laundry_platform.Shared.HttpAuth.{Principal}
use laundry_platform.Core.Tables.{Tables, Float64, TaxRate}
use laundry_platform.Core.Float.{FloatOps}
use laundry_platform.Core.Response.{Response, error, json}
use laundry_platform.Core.Finalize.{active_tax_rate_value}
use laundry_platform.Core.Tax.{
  closed, close_all, close_rates, out_of_range, new_rate, insert_kept, insert_rate, set_tax_rate,
}

abbrev is_open : TaxRate → Bool
is_open r = not (is_some r.effective_to)

find-closed :
    (now : ℕ) (x : TaxRate) (rs : List TaxRate) → find is_open (closed now x ∷ rs) ≡ find is_open rs
find-closed now x rs = step x.effective_to x refl
  where
    step :
        (e : Option ℕ) (y : TaxRate)
        → y.effective_to ≡ e
        → find is_open (closed now y ∷ rs) ≡ find is_open rs
    step none y p = rw p refl
    step (some at) y p = rw p refl

-- Among closed rates and one that is open, the open one is found.
find-close_all :
    (now : ℕ) (rs : List TaxRate) (r : TaxRate)
    → is_open r ≡ true
    → find is_open (close_all now rs ++ r ∷ []) ≡ some r
unfolding close_all
find-close_all now [] r h = rw h refl
find-close_all now (x ∷ rs) r h =
    find-closed now x (close_all now rs ++ r ∷ []) ∙ find-close_all now rs r h

kept_row :
    (ops : FloatOps) (k : Option Float64) (id reason by : String) (t : Tables) (n : ℕ) (u : Tables)
    → insert_kept ops k id reason by t ≡ applied n u
    → (a : Float64) × (k ≡ some a)
      × (u ≡ record t { tax_rates = t.tax_rates ++ new_rate id a reason by ∷ [] })
unfolding insert_kept
kept_row ops none id reason by t n u e = absurd (cc)
kept_row ops (some a) id reason by t n u e = (a, refl, ground arith)

module _ (ops : FloatOps) (rate : Float64) (reason id : String) (now : ℕ) (p : Principal)
    (t : Tables) where
  -- The rates before are closed, the new row is open, and it is the rate that bills are made with.
  pub record Replaced (t' : Tables) : Type 0 where
    pub in_range : out_of_range ops rate ≡ false
    pub kept : Float64
    pub rounded : ops.numeric_5_2 rate ≡ some kept
    pub committed :
        t' ≡ record t { tax_rates = close_all now t.tax_rates ++ new_rate id kept reason p.id ∷ [] }
    pub active : active_tax_rate_value t' ≡ some kept

  abbrev pub Answered : Response → Tables → Type 0
  Answered (error n c) t' = (t' ≡ t) ⊎ (n ≡ 500) × Replaced t'
  Answered (json n b) t' = (n ≡ 201) × Replaced t'

  replaced :
      (n : ℕ) (u : Tables)
      → (out_of_range ops rate || str_eq reason "") ≡ false
      → insert_rate ops id rate reason p.id (close_rates now t) ≡ applied n u
      → Replaced u
  unfolding insert_rate close_rates active_tax_rate_value
  replaced n u ok e =
      let (a, q, c) =
        kept_row ops (ops.numeric_5_2 rate) id reason p.id (close_rates now t) n u e in
      record {
        in_range = ground arith;
        kept = a;
        rounded = q;
        committed = c;
        active =
            ap active_tax_rate_value c
            ∙ rw
                (
                  active_tax_rate_value,
                  find-close_all now t.tax_rates (new_rate id a reason p.id) refl,
                )
                refl;
      }

  -- Whatever the replies of the database, `set_tax_rate` answers; it answers 201 only for a rate in
  -- range, and has then committed the rates before as closed and one new open row, whose rate, as
  -- the column keeps it, is the active one. An error leaves the tables as they were, or is a 500
  -- after all of that was committed.
  pub set_tax_rate-Runs : Runs t idle (set_tax_rate ops rate reason id now p) Answered
  unfolding set_tax_rate done_or
  set_tax_rate-Runs =
      Runs-respond_if _ _ _ _ (λ e. inl refl)
        (λ ok. Runs-need _ _ _ _ (
          Runs-begin_tx _
            (Runs-write _ _ _ _
              (Runs-pure _ _ (
                Runs-exec_tx _ _ _
                  (λ n u e. Runs-pure _ _ (
                    Runs-need _ _ _ _ (
                      Runs-commit _ _ (Runs-respond _ (refl, replaced n u ok e))
                        (Runs-respond _ (inr (refl, replaced n u ok e)))
                        (Runs-respond _ (inl refl)))))
                  (λ e. Runs-respond_bind _ _ (inl refl)) (Runs-respond_bind _ _ (inl refl))))
              (Runs-respond_bind _ _ (inl refl)))
            (Runs-respond _ (inl refl))))
