-- ===== src/Core/Transition/Rule.antt =====
-- How a handler goes on after `transition_status_tx`.
use laundry_platform.Base.{
  String, Option, ◌≡◌, ◌⊎◌, inl, inr, ap, ◌∙◌, Bool, true, false, if◌then◌else◌,
}
use laundry_platform.Db.{M, Session, Result, ok, exit, ◌>>=◌, continue, pure}
use laundry_platform.Db.Runs.{Runs, Ends, Runs-pure, seeing, broken}
use laundry_platform.Core.OrderState.{Status}
use laundry_platform.Core.Tables.{Tables}
use laundry_platform.Core.Transition.{transition_status_tx}
use laundry_platform.Core.Transition.Effect.{moved, transition_status_tx-moved}

module _ {R B : Type 0} {t : Tables} {Q : R → Tables → Type 0} where
  pub Runs-transition_status_tx :
      (id : String) (from to : Status) (by : String) (reason : Option String) (override : Bool)
      (x : Tables) (f : Bool → M Tables R B)
      → Runs t (seeing (moved id from to by reason override x)) (f true) Q
      → Runs t broken (f false) Q
      → Runs t (seeing x) (transition_status_tx id from to by reason override >>= f) Q
  unfolding ◌>>=◌
  Runs-transition_status_tx id from to by reason override x f good bad = record {
    at = λ s e w.
        let m = transition_status_tx id from to by reason override s in
        go s (m.0) (m.1) e w.1 (transition_status_tx-moved id from to by reason override s);
  }
    where
      y : Tables → Tables
      y = moved id from to by reason override

      go :
          (s : Session Tables) (r : Result R Bool) (s' : Session Tables)
          → s.tables ≡ t
          → s.tx ≡ x
          → (s'.tables ≡ s.tables)
            × ((s'.aborted ≡ true) × (r ≡ ok false)
                ⊎ (s'.aborted ≡ false) × (r ≡ ok true) × (s'.tx ≡ y s.tx))
          → Ends Q (continue r f s')
      go _ (ok true) s' e w (same, inl (dead, q)) = absurd (cc)
      go _ (ok false) s' e w (same, inl (dead, q)) = bad.at s' (same ∙ e) dead
      go _ (ok true) s' e w (same, inr (live, q, z)) = good.at s' (same ∙ e) (live, z ∙ ap y w)
      go _ (ok false) s' e w (same, inr (live, q, z)) = absurd (cc)
      go _ (exit r) s' e w (same, inl (dead, q)) = absurd (cc)
      go _ (exit r) s' e w (same, inr (live, q, z)) = absurd (cc)

  -- A transition under a test.
  pub Runs-transition_if :
      (b : Bool) (id : String) (from to : Status) (by : String) (reason : Option String)
      (override : Bool) (x : Tables) (f : Bool → M Tables R B)
      → Runs t (seeing (if b then moved id from to by reason override x else x)) (f true) Q
      → Runs t broken (f false) Q
      → Runs t
          (seeing x)
          ((if b then transition_status_tx id from to by reason override else pure true) >>= f)
          Q
  Runs-transition_if true id from to by reason override x f good bad =
      Runs-transition_status_tx id from to by reason override x f good bad
  Runs-transition_if false id from to by reason override x f good bad = Runs-pure _ _ good
