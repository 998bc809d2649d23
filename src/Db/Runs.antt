-- ===== src/Db/Runs.antt =====
-- How a handler ends: a rule for each call and each way to build a handler, under every choice of
-- replies. `Runs t v m Q`: started where `t` is committed and the transaction is in the state `v`,
-- `m` writes a response, and `Q` holds of it and of what is committed then.
use laundry_platform.Base.{
  ℕ, ◌≡◌, refl, sym, subst, Bool, true, false, Option, none, some, if◌then◌else◌,
}
use laundry_platform.Db.{
  Session, Result, M, ok, exit, start, pure, respond, ◌>>=◌, respond_if, respond_some, returned,
  handed, need, Reply, continue,
}

-- No transaction, an open one with what it sees, or one that PostgreSQL has given up.
pub data Tx (T : Type 0) : Type 0 where
  idle : Tx T
  seeing : T → Tx T
  broken : Tx T

abbrev pub View : {T : Type 0} → Tx T → Session T → Type 0
View idle s = Unit
View (seeing x) s = (s.aborted ≡ false) × (s.tx ≡ x)
View broken s = s.aborted ≡ true

abbrev pub Ends : {T R A : Type 0} → (R → T → Type 0) → Result R A × Session T → Type 0
Ends Q (exit r, s) = Q r s.tables
Ends Q (ok a, s) = ⊥

pub record Runs {T R A : Type 0} (t : T) (v : Tx T) (m : M T R A) (Q : R → T → Type 0)
    : Type 0 where
  pub at : (s : Session T) → s.tables ≡ t → View v s → Ends Q (m s)

module _ {T R A B : Type 0} {t : T} {v : Tx T} {Q : R → T → Type 0} where
  pub Runs-pure : (a : A) (f : A → M T R B) → Runs t v (f a) Q → Runs t v (pure a >>= f) Q
  unfolding ◌>>=◌
  Runs-pure a f h = record { at = λ s e w. h.at s e w }

  pub Runs-respond_bind : (r : R) (f : A → M T R B) → Q r t → Runs t v (respond r >>= f) Q
  unfolding ◌>>=◌
  Runs-respond_bind r f q = record { at = λ s e w. subst (Q r) (sym e) q }

pub Runs-respond :
    {T R A : Type 0} {t : T} {v : Tx T} {Q : R → T → Type 0} (r : R)
    → Q r t
    → Runs {A = A} t v (respond r) Q
unfolding respond
Runs-respond {Q} r q = record { at = λ s e w. subst (Q r) (sym e) q }

module _ {T R B : Type 0} {t : T} {Q : R → T → Type 0} where
  pub Runs-respond_if :
      (v : Tx T) (b : Bool) (r : R) (f : Unit {0} → M T R B)
      → (b ≡ true → Q r t)
      → (b ≡ false → Runs t v (f tt) Q)
      → Runs t v (respond_if b r >>= f) Q
  unfolding ◌>>=◌ respond_if
  Runs-respond_if v true r f q h = record { at = λ s e w. subst (Q r) (sym e) (q refl) }
  Runs-respond_if v false r f q h = record { at = λ s e w. (h refl).at s e w }

  pub Runs-respond_some :
      (v : Tx T) (o : Option R) (f : Unit {0} → M T R B)
      → ((r : R) → o ≡ some r → Q r t)
      → (o ≡ none → Runs t v (f tt) Q)
      → Runs t v (respond_some o >>= f) Q
  unfolding ◌>>=◌ respond_some
  Runs-respond_some v none f q h = record { at = λ s e w. (h refl).at s e w }
  Runs-respond_some v (some r) f q h = record { at = λ s e w. subst (Q r) (sym e) (q r refl) }

  pub Runs-if :
      (v : Tx T) (b : Bool) (m n : M T R B)
      → (b ≡ true → Runs t v m Q)
      → (b ≡ false → Runs t v n Q)
      → Runs t v (if b then m else n) Q
  Runs-if v true m n hm hn = hm refl
  Runs-if v false m n hm hn = hn refl

  -- `err != nil` after a call that yields no value.
  pub Runs-need :
      (v : Tx T) (r : R) (m : M T R Bool) (f : Unit {0} → M T R B)
      → Runs t v (m >>= λ b. if b then f tt else respond r) Q
      → Runs t v (need r m >>= f) Q
  unfolding ◌>>=◌ need pure respond
  Runs-need v r m f h = record { at = λ s e w. go (m s).0 (m s).1 (h.at s e w) }
    where
      go :
          (x : Result R Bool) (s : Session T)
          → Ends Q (continue x (λ b. if b then f tt else respond r) s)
          → Ends Q (
              continue
                (continue x (λ b. if b then pure tt else respond r) s).0
                f
                (continue x (λ b. if b then pure tt else respond r) s).1)
      go (ok true) s q = q
      go (ok false) s q = q
      go (exit y) s q = q

module _ {T R A B C : Type 0} {t : T} {v : Tx T} {Q : R → T → Type 0} where
  -- A helper's own block of calls is read as part of its caller's.
  pub Runs-assoc :
      (m : M T R A) (g : A → M T R B) (f : B → M T R C)
      → Runs t v (m >>= λ a. g a >>= f) Q
      → Runs t v ((m >>= g) >>= f) Q
  unfolding ◌>>=◌
  Runs-assoc m g f h = record { at = λ s e w. go (m s).0 (m s).1 (h.at s e w) }
    where
      go :
          (r : Result R A) (s : Session T)
          → Ends Q (continue r (λ a. g a >>= f) s)
          → Ends Q (continue (continue r g s).0 f (continue r g s).1)
      go (ok a) s q = q
      go (exit r) s q = q

-- A function's own end, and how its caller goes on.
pub Runs-returned :
    {T R A B : Type 0} {t : T} {P : A → T → Type 0} {Q : R → T → Type 0} (m : M T A A)
    (f : A → M T R B)
    → Runs t idle m P
    → ((a : A) (t' : T) → P a t' → Runs t' idle (f a) Q)
    → Runs t idle (returned m >>= f) Q
unfolding ◌>>=◌ returned
Runs-returned {T} {R} {A} {B} {t} {P} {Q} m f hm hf = record {
  at = λ s e w. go (m s).0 (m s).1 (hm.at s e w);
}
  where
    go :
        (r : Result A A) (s : Session T)
        → Ends P (r, s)
        → Ends Q (continue (handed {R = R} (r, s)).0 f (handed {R = R} (r, s)).1)
    go (exit a) s q = (hf a s.tables q).at s refl tt
    go (ok a) s q = absurd q

pub Runs-weaken :
    {T R A : Type 0} {t : T} {v : Tx T} {P Q : R → T → Type 0} {m : M T R A}
    → Runs t v m P
    → ((r : R) (t' : T) → P r t' → Q r t')
    → Runs t v m Q
Runs-weaken {T} {R} {A} {t} {v} {P} {Q} {m} h k = record { at = λ s e w. go (m s) (h.at s e w) }
  where
    go : (x : Result R A × Session T) → Ends P x → Ends Q x
    go (exit r, s) q = k r s.tables q
    go (ok a, s) q = absurd q

-- What a handler answers, and what is committed then.
pub Runs-answer :
    {T R : Type 0} {t : T} {m : M T R R} {Q : R → T → Type 0}
    → Runs t idle m Q
    → (net : ℕ → Reply) {r : R} → (m (start net t)).0 ≡ exit r
    → Q r (m (start net t)).1.tables
unfolding start
Runs-answer {T} {R} {t} {m} {Q} runs net {r} e =
    go (m (start net t)).0 (m (start net t)).1 (runs.at (start net t) refl tt) e
  where
    go : (x : Result R R) (s : Session T) → Ends Q (x, s) → x ≡ exit r → Q r s.tables
    go (exit y) s q e = let z : y ≡ r = cc in subst (λ w. Q w s.tables) z q
    go (ok a) s q e = absurd q

-- A handler that ends only in states with a property leaves such a state, whatever the replies.
pub Runs-Keeps :
    {T R : Type 0} {t : T} {m : M T R R} {Q : R → T → Type 0} (I : T → Type 0)
    → Runs t idle m Q
    → ((r : R) (t' : T) → Q r t' → I t')
    → (net : ℕ → Reply) → I (m (start net t)).1.tables
unfolding start
Runs-Keeps {T} {R} {t} {m} {Q} I runs keep net =
    go (m (start net t)).0 (m (start net t)).1 (runs.at (start net t) refl tt)
  where
    go : (r : Result R R) (s : Session T) → Ends Q (r, s) → I s.tables
    go (exit r) s q = keep r s.tables q
    go (ok a) s q = absurd q

-- A handler answers, and the predicate holds of its answer and of what is committed.
pub Runs-total :
    {T R : Type 0} {t : T} {m : M T R R} {Q : R → T → Type 0}
    → Runs t idle m Q
    → (net : ℕ → Reply) → (r : R) × ((m (start net t)).0 ≡ exit r) × Q r (m (start net t)).1.tables
unfolding start
Runs-total {T} {R} {t} {m} {Q} runs net =
    go (m (start net t)).0 (m (start net t)).1 (runs.at (start net t) refl tt)
  where
    go : (x : Result R R) (s : Session T) → Ends Q (x, s) → (r : R) × (x ≡ exit r) × Q r s.tables
    go (exit r) s q = (r, refl, q)
    go (ok a) s q = absurd q
