-- ===== src/Base/Lists.antt =====
-- Lists as tables: search, update and insertion by a row's key.
use Prim.Native.Nat.{ℕ, suc}
use Prim.Native.String.{String}
use mathlib.Core.Path.{◌≡◌, refl, ap}
use mathlib.Core.Bool.{Bool, true, false, ◌||◌}
use mathlib.Core.Logic.{inl, inr}
use mathlib.Core.Option
use mathlib.Core.Option.{Option, none, some}
use mathlib.Core.List.{List, [], ◌∷◌, ◌++◌}
use native.Mathlib.Omega.{arith}
use text.Mathlib.Text.{◌==◌ as str_eq}
use text.Mathlib.TextEquality.{eq_iff}
use laundry_platform.Base.Tests.{if◌then◌else◌, Bool-cases}

module _ {ℓ} {A : Type ℓ} where
  abbrev pub length : List A → ℕ
  length [] = 0
  length (x ∷ xs) = suc (length xs)

  -- `SELECT ... WHERE p`: the first row that meets the test.
  abbrev pub find : (A → Bool) → List A → Option A
  find p [] = none
  find p (x ∷ xs) = if p x then some x else find p xs

  -- `SELECT EXISTS(... WHERE p)`.
  abbrev pub exists : (A → Bool) → List A → Bool
  exists p [] = false
  exists p (x ∷ xs) = p x || exists p xs

  -- `SELECT ... WHERE p`: all rows that meet the test, in the table's order.
  abbrev pub select : (A → Bool) → List A → List A
  select p [] = []
  select p (x ∷ xs) = let rest = select p xs in if p x then x ∷ rest else rest

  -- `UPDATE ... SET f WHERE p`.
  abbrev pub update_where : (A → Bool) → (A → A) → List A → List A
  update_where p f [] = []
  update_where p f (x ∷ xs) = (if p x then f x else x) ∷ update_where p f xs

module _ {ℓ} {A : Type ℓ} (key : A → String) where
  -- The row with a primary key.
  unfoldable pub find_key : String → List A → Option A
  find_key k [] = none
  find_key k (x ∷ xs) = if str_eq (key x) k then some x else find_key k xs

  -- `UPDATE ... SET f WHERE id = k`, where `id` is the primary key.
  unfoldable pub update_key : String → (A → A) → List A → List A
  update_key k f [] = []
  update_key k f (x ∷ xs) = if str_eq (key x) k then f x ∷ xs else x ∷ update_key k f xs

  pub find_key-update_key :
      (k j : String) (f : A → A) (xs : List A)
      → ((x : A) → key (f x) ≡ key x)
      → find_key j (update_key k f xs)
        ≡ (if str_eq k j then Option.map f (find_key j xs) else find_key j xs)
  unfolding find_key update_key
  find_key-update_key k j f [] same = ground arith
  find_key-update_key k j f (x ∷ xs) same = ground (
    arith,
    same x,
    eq_iff k j,
    eq_iff (key x) k,
    eq_iff (key x) j,
    find_key-update_key k j f xs same,
  )

  -- A new row stands behind those that are there.
  pub find_key-append :
      (j : String) (xs : List A) (y : A)
      → find_key j xs ≡ none
      → find_key j (xs ++ y ∷ []) ≡ (if str_eq (key y) j then some y else none)
  unfolding find_key
  find_key-append j [] y h = refl
  find_key-append j (x ∷ xs) y h = ground (arith, find_key-append j xs y)

  pub find_key-append_some :
      (j : String) (xs : List A) (y : A) (x : A)
      → find_key j xs ≡ some x
      → find_key j (xs ++ y ∷ []) ≡ some x
  unfolding find_key
  find_key-append_some j [] y z h = ground arith
  find_key-append_some j (x ∷ xs) y z h = ground (arith, find_key-append_some j xs y z)

  -- What is found under a key has that key.
  pub key_of_find_key : (k : String) (xs : List A) (x : A) → find_key k xs ≡ some x → key x ≡ k
  unfolding find_key
  key_of_find_key k [] z h = ground arith
  key_of_find_key k (x ∷ xs) z h = ground (arith, eq_iff (key x) k, key_of_find_key k xs z)

  -- A row that meets a test keeps meeting it, if its update does not break it.
  pub exists-update_key :
      (q : A → Bool) (k : String) (f : A → A) (xs : List A)
      → ((x : A) → find_key k xs ≡ some x → q x ≡ true → q (f x) ≡ true)
      → exists q xs ≡ true
      → exists q (update_key k f xs) ≡ true
  unfolding find_key update_key
  exists-update_key q k f [] keeps h = h
  exists-update_key q k f (x ∷ xs) keeps h = elim (Bool-cases (str_eq (key x) k)) [
    | inl e ↦ rw e (ground (arith, keeps x (rw e refl), h))
    | inr e ↦ rw e (ground (arith, exists-update_key q k f xs (λ y found. keeps y (rw e found)), h))
  ]

  -- The row that is updated meets a test.
  pub exists-update_key_found :
      (q : A → Bool) (k : String) (f : A → A) (xs : List A) (x : A)
      → find_key k xs ≡ some x
      → q (f x) ≡ true
      → exists q (update_key k f xs) ≡ true
  unfolding find_key update_key
  exists-update_key_found q k f [] x found h = absurd (cc)
  exists-update_key_found q k f (y ∷ xs) x found h = elim (Bool-cases (str_eq (key y) k)) [
    | inl e ↦ rw e (let z : y ≡ x = first e in ground (arith, ap (λ w. q (f w)) z, h))
    | inr e ↦ rw e (ground (arith, exists-update_key_found q k f xs x (later e) h))
  ]
    where
      first : str_eq (key y) k ≡ true → y ≡ x
      first e =
          let g : (if str_eq (key y) k then some y else find_key k xs) ≡ some x = found in
          ground (arith, g, e)

      later : str_eq (key y) k ≡ false → find_key k xs ≡ some x
      later e =
          let g : (if str_eq (key y) k then some y else find_key k xs) ≡ some x = found in
          ground (arith, g, e)

pub exists-append {ℓ} :
    {A : Type ℓ} (q : A → Bool) (xs : List A) (y : A)
    → exists q (xs ++ y ∷ []) ≡ (exists q xs || q y)
exists-append q [] y = ground arith
exists-append q (x ∷ xs) y = ground (arith, exists-append q xs y)
