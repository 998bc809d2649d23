-- ===== src/Gateway/Proxy/Choice.antt =====
-- The route that is chosen: a longest one that matches, and for the Gateway's table the first.
use Prim.Native.String.{len}
use laundry_platform.Base.{
  ◌≤◌, ◌<◌, ◌++◌, sym, ap, ◌∙◌, subst, String, List, [], ◌∷◌, Option, none, some, Bool, true, false,
  ◌&&◌, ◌||◌, not, ◌≡◌, refl, arith, is_some, find, Bool-cases, inl, inr, if◌then◌else◌,
}
use mathlib.Core.List.{append_assoc, append-nil}
use laundry_platform.Base.Text.{cut_prefix}
use laundry_platform.Gateway.Proxy.{Route, has_prefix, matches, is_better, best_of, route_for}

-- Every route of a list that matches is shorter than the given one.
abbrev pub Shorter : String → Route → List Route → Type 0
Shorter path b [] = Unit
Shorter path b (r ∷ rs) = (matches path r ≡ true → len r.prefix < len b.prefix) × Shorter path b rs

-- A route that matches is at least as long as every one of a list that does.
abbrev pub Longest : String → Route → List Route → Type 0
Longest path b [] = Unit
Longest path b (r ∷ rs) = (matches path r ≡ true → len r.prefix ≤ len b.prefix) × Longest path b rs

abbrev pub NoneMatches : String → List Route → Type 0
NoneMatches path [] = Unit
NoneMatches path (r ∷ rs) = (matches path r ≡ false) × NoneMatches path rs

-- `b` stands in the list and matches; what matches before it is shorter, what matches behind it is
-- not longer.
pub record FirstLongest (path : String) (rs : List Route) (b : Route) : Type 0 where
  pub before : List Route
  pub behind : List Route
  pub stands : rs ≡ before ++ b ∷ behind
  pub has_match : matches path b ≡ true
  pub shorter_before : Shorter path b before
  pub longest_behind : Longest path b behind

-- What is chosen among the routes: the first of the longest that match, or nothing if none does.
abbrev pub Chosen : String → List Route → Option Route → Type 0
Chosen path rs none = NoneMatches path rs
Chosen path rs (some b) = FirstLongest path rs b

module _ (path : String) where
  NoneMatches-append :
      (rs : List Route) (r : Route)
      → NoneMatches path rs
      → matches path r ≡ false
      → NoneMatches path (rs ++ r ∷ [])
  NoneMatches-append [] r n e = (e, tt)
  NoneMatches-append (x ∷ rs) r n e = (n.0, NoneMatches-append rs r n.1 e)

  Longest-append :
      (b : Route) (rs : List Route) (r : Route)
      → Longest path b rs
      → (matches path r ≡ true → len r.prefix ≤ len b.prefix)
      → Longest path b (rs ++ r ∷ [])
  Longest-append b [] r l h = (h, tt)
  Longest-append b (x ∷ rs) r l h = (l.0, Longest-append b rs r l.1 h)

  Shorter-none : (b : Route) (rs : List Route) → NoneMatches path rs → Shorter path b rs
  Shorter-none b [] n = tt
  Shorter-none b (r ∷ rs) n = ((λ m. absurd (let e = n.0 in cc)), Shorter-none b rs n.1)

  -- A route that is longer than the choice so far is longer than all that match.
  Shorter-all :
      (a b : Route) (before behind : List Route)
      → len a.prefix < len b.prefix
      → Shorter path a before
      → Longest path a behind
      → Shorter path b (before ++ a ∷ behind)
  Shorter-all a b [] [] h s l = ((λ m. h), tt)
  Shorter-all a b [] (x ∷ xs) h s l =
      ((λ m. h), ((λ m. let k = l.0 m in omega arith), (Shorter-all a b [] xs h s l.1).1))
  Shorter-all a b (x ∷ xs) behind h s l =
      ((λ m. let k = s.0 m in omega arith), Shorter-all a b xs behind h s.1 l)

  kept :
      (seen : List Route) (r b : Route)
      → FirstLongest path seen b
      → (matches path r ≡ true → len r.prefix ≤ len b.prefix)
      → FirstLongest path (seen ++ r ∷ []) b
  kept seen r b c h = record {
    before = c.before;
    behind = c.behind ++ r ∷ [];
    stands = ap (λ xs. xs ++ r ∷ []) c.stands ∙ append_assoc c.before (b ∷ c.behind) (r ∷ []);
    has_match = c.has_match;
    shorter_before = c.shorter_before;
    longest_behind = Longest-append b c.behind r c.longest_behind h;
  }

  step :
      (seen : List Route) (r : Route) (best : Option Route) (m l : Bool)
      → matches path r ≡ m
      → is_better r best ≡ l
      → Chosen path seen best
      → Chosen path (seen ++ r ∷ []) (if m && l then some r else best)
  unfolding is_better
  step seen r none true l e q c = elim (Bool-cases l) [
    | inl t ↦ rw t (record {
      before = seen;
      behind = [];
      stands = refl;
      has_match = e;
      shorter_before = Shorter-none r seen c;
      longest_behind = tt;
    })
    | inr f ↦ absurd (cc)
  ]
  step seen r none false l e q c = NoneMatches-append seen r c e
  step seen r (some b) true true e q c = record {
    before = seen;
    behind = [];
    stands = refl;
    has_match = e;
    shorter_before =
        subst (Shorter path r) (sym c.stands)
          (Shorter-all b r c.before c.behind (ground arith) c.shorter_before c.longest_behind);
    longest_behind = tt;
  }
  step seen r (some b) true false e q c = kept seen r b c (λ m. ground arith)
  step seen r (some b) false l e q c = kept seen r b c (λ m. absurd (cc))

  -- `seen` are the routes before, of which `best` is the choice.
  best_of-Chosen :
      (seen rts : List Route) (best : Option Route)
      → Chosen path seen best
      → Chosen path (seen ++ rts) (best_of path best rts)
  unfolding best_of
  best_of-Chosen seen [] best c = subst (λ xs. Chosen path xs best) (sym (append-nil seen)) c
  best_of-Chosen seen (r ∷ rs) best c =
      let best' = if matches path r && is_better r best then some r else best in
      subst (λ xs. Chosen path xs (best_of path best' rs)) (append_assoc seen (r ∷ []) rs)
        (best_of-Chosen (seen ++ r ∷ []) rs best' (step seen r best _ _ refl refl c))

  -- The route of a path is one of the table of which it has the prefix, longer than every other
  -- such route before it in the table and at least as long as every one behind it; a path goes to
  -- none only if it has the prefix of none.
  pub route_for-Chosen : (rts : List Route) → Chosen path rts (route_for rts path)
  unfolding route_for
  route_for-Chosen rts = best_of-Chosen [] rts none tt

-- Two prefixes of one text: one begins with the other.
prefixes_meet :
    (p q s : String)
    → is_some (cut_prefix p s) ≡ true
    → is_some (cut_prefix q s) ≡ true
    → (is_some (cut_prefix p q) || is_some (cut_prefix q p)) ≡ true
unfolding cut_prefix
prefixes_meet String.[] q s a b = refl
prefixes_meet (String.◌∷◌ c p) String.[] s a b = ground arith
prefixes_meet (String.◌∷◌ c p) (String.◌∷◌ d q) String.[] a b = absurd (cc)
prefixes_meet (String.◌∷◌ c p) (String.◌∷◌ d q) (String.◌∷◌ e s) a b =
    ground (arith, prefixes_meet p q s)

-- No route's prefix begins with that of another.
clashes : Route → List Route → Bool
clashes r [] = false
clashes r (x ∷ xs) = (has_prefix r.prefix x.prefix || has_prefix x.prefix r.prefix) || clashes r xs

unfoldable pub independent : List Route → Bool
unfolding clashes
independent [] = true
independent (r ∷ rs) = not (clashes r rs) && independent rs

module _ (path : String) where
  no_other :
      (r : Route) (rs : List Route)
      → matches path r ≡ true
      → clashes r rs ≡ false
      → NoneMatches path rs
  unfolding clashes matches has_prefix
  no_other r [] m c = tt
  no_other r (x ∷ xs) m c =
      (ground (arith, prefixes_meet x.prefix r.prefix path), no_other r xs m (ground arith))

  best_of-NoneMatches :
      (best : Option Route) (rs : List Route) → NoneMatches path rs → best_of path best rs ≡ best
  unfolding best_of
  best_of-NoneMatches best [] n = refl
  best_of-NoneMatches best (r ∷ rs) n = rw n.0 (best_of-NoneMatches best rs n.1)

  -- Where no route's prefix begins with that of another, the loop over the routes chooses the first
  -- that matches.
  pub route_for-eq-find :
      (rts : List Route) → independent rts ≡ true → route_for rts path ≡ find (matches path) rts
  unfolding route_for best_of independent is_better
  route_for-eq-find [] i = refl
  route_for-eq-find (r ∷ rs) i = elim (Bool-cases (matches path r)) [
    | inl m ↦ rw m (best_of-NoneMatches (some r) rs (no_other r rs m (ground arith)))
    | inr m ↦ rw m (route_for-eq-find rs (ground arith))
  ]
