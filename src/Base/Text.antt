-- ===== src/Base/Text.antt =====
-- `strings.TrimSpace`, `strings.Split`, `strings.Join` and `strings.CutPrefix` of Go's standard
-- library, on texts of Unicode code points.
use Prim.Native.Nat.{ℕ}
use Prim.Native.Char.{code}
use Prim.Native.String.{String, ◌++◌}
use mathlib.Core.Path.{◌≡◌, refl, ap, ◌∙◌}
use mathlib.Core.Bool.{Bool, false, ◌||◌, ◌&&◌}
use mathlib.Core.List.{List, [], ◌∷◌}
use mathlib.Core.Option.{Option, none, some}
use native.Mathlib.Omega.{arith}
use Prim.Native.Char.{Char}
use text.Mathlib.Text.{◌==◌ as str_eq}
use text.Mathlib.TextLemmas.{nil-append, cons-append}
use laundry_platform.Base.Tests.{leb, ◌==◌, if◌then◌else◌}

-- `unicode.IsSpace`.
pub is_space : ℕ → Bool
is_space c =
    (leb 9 c && leb c 13)
    || c == 32
    || c == 0x85
    || c == 0xa0
    || c == 0x1680
    || (leb 0x2000 c && leb c 0x200a)
    || c == 0x2028
    || c == 0x2029
    || c == 0x202f
    || c == 0x205f
    || c == 0x3000

trim_left : String → String
unfolding is_space
trim_left String.[] = ""
trim_left (String.◌∷◌ c s) =
    let rest = trim_left s in if is_space (code c) then rest else String.◌∷◌ c s

trim_right : String → String
unfolding is_space
trim_right String.[] = ""
trim_right (String.◌∷◌ c s) =
    let rest = trim_right s in if is_space (code c) && str_eq rest "" then "" else String.◌∷◌ c rest

unfoldable pub trim_space : String → String
unfolding trim_left trim_right
trim_space s = trim_right (trim_left s)

-- `strings.Join(parts, ",")` with any separator of one character.
unfoldable pub join : Char → List String → String
join sep [] = ""
join sep (p ∷ []) = p
join sep (p ∷ q ∷ ps) = p ++ String.◌∷◌ sep (join sep (q ∷ ps))

abbrev pub cons_head : Char → List String → List String
cons_head c [] = String.◌∷◌ c "" ∷ []
cons_head c (p ∷ ps) = String.◌∷◌ c p ∷ ps

-- `strings.Split(s, ",")`, which has one part more than separators.
unfoldable pub split : Char → String → List String
split sep String.[] = "" ∷ []
split sep (String.◌∷◌ c s) =
    let rest = split sep s in if code c == code sep then "" ∷ rest else cons_head c rest

-- A text without the separator.
abbrev pub Lacks : Char → String → Type 0
Lacks sep String.[] = Unit
Lacks sep (String.◌∷◌ c s) = ((code c == code sep) ≡ false) × Lacks sep s

abbrev pub AllLack : Char → List String → Type 0
AllLack sep [] = Unit
AllLack sep (p ∷ ps) = Lacks sep p × AllLack sep ps

split_last : (sep : Char) (p : String) → Lacks sep p → split sep p ≡ p ∷ []
unfolding split
split_last sep String.[] h = refl
split_last sep (String.◌∷◌ c s) h = rw (h.0, split_last sep s h.1) refl

same_code : (sep : Char) (rest : String) → split sep (String.◌∷◌ sep rest) ≡ "" ∷ split sep rest
unfolding split
same_code sep rest = ground arith

split_first :
    (sep : Char) (p rest : String)
    → Lacks sep p
    → split sep (p ++ String.◌∷◌ sep rest) ≡ p ∷ split sep rest
unfolding split
split_first sep String.[] rest h = rw (nil-append (String.◌∷◌ sep rest)) (same_code sep rest)
split_first sep (String.◌∷◌ c s) rest h =
    rw (cons-append c s (String.◌∷◌ sep rest)) (rw (h.0, split_first sep s rest h.1) refl)

-- Parts without the separator come back, if there is at least one.
pub split-join :
    (sep : Char) (p : String) (ps : List String)
    → AllLack sep (p ∷ ps)
    → split sep (join sep (p ∷ ps)) ≡ p ∷ ps
unfolding join
split-join sep p [] h = split_last sep p h.0
split-join sep p (q ∷ ps) h =
    split_first sep p (join sep (q ∷ ps)) h.0 ∙ ap (λ t. p ∷ t) (split-join sep q ps h.1)

-- `strings.CutPrefix`, with `none` for a text without the prefix.
unfoldable pub cut_prefix : String → String → Option String
cut_prefix String.[] s = some s
cut_prefix (String.◌∷◌ c p) String.[] = none
cut_prefix (String.◌∷◌ c p) (String.◌∷◌ d s) =
    let rest = cut_prefix p s in if code c == code d then rest else none
