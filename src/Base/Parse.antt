-- ===== src/Base/Parse.antt =====
-- Searching and parsing text: Go's `strings.Contains`, `TrimSpace`, `LastIndex`, `strconv.ParseInt`.
use Prim.Native.Nat.{ℕ, zero, suc, ◌+◌, ◌-◌, ◌*◌}
use Prim.Native.Char.{Char, code}
use Prim.Native.String.{String, [], ◌∷◌}
use mathlib.Core.Path.{◌≡◌, refl}
use mathlib.Core.Bool.{Bool, true, false, ◌&&◌, ◌||◌}
use mathlib.Core.Option.{Option, none, some}
use strix_halo_cluster_glm.Base.Integer.{ℤ, pos, negsuc}
use strix_halo_cluster_glm.Base.Tests.{leb, eqb, if◌then◌else◌}
use strix_halo_cluster_glm.Base.Text.{has_prefix, is_space}

-- strings.Contains
unfoldable pub contains : String → String → Bool
contains s [] = true
contains [] (p ∷ ps) = false
contains (c ∷ s) (p ∷ ps) = let rest = contains s (p ∷ ps) in has_prefix (c ∷ s) (p ∷ ps) || rest

-- The text behind the last occurrence of a code point: `s[strings.LastIndex(s, sep)+1:]`.
unfoldable pub after_last : ℕ → String → Option String
after_last sep [] = none
after_last sep (c ∷ s) = elim (after_last sep s) [
  | some t ↦ some t
  | none ↦ if eqb (code c) sep then some s else none
]

unfoldable pub trim_left : String → String
unfolding is_space
trim_left [] = []
trim_left (c ∷ s) = let rest = trim_left s in if is_space (code c) then rest else c ∷ s

abbrev trimmed_end : Char → String → String
trimmed_end c [] = if is_space (code c) then [] else c ∷ []
trimmed_end c (d ∷ s) = c ∷ d ∷ s

unfoldable pub trim_right : String → String
unfolding is_space
trim_right [] = []
trim_right (c ∷ s) = trimmed_end c (trim_right s)

-- strings.TrimSpace
unfoldable pub trim_space : String → String
unfolding trim_left trim_right
trim_space s = trim_right (trim_left s)

-- The value of a text of decimal digits, none for any other text.
unfoldable pub digits_from : ℕ → String → Option ℕ
digits_from acc [] = some acc
digits_from acc (c ∷ s) =
    let rest = digits_from (acc * 10 + (code c - 48)) s in
    if leb 48 (code c) && leb (code c) 57 then rest else none

abbrev pub max_int64 : ℕ
max_int64 = 9223372036854775807

-- The int64 of a sign and its digits, none outside of the range.
abbrev signed : Bool → Option ℕ → Option ℤ
signed minus none = none
signed false (some n) = if leb n max_int64 then some (pos n) else none
signed true (some zero) = some (pos 0)
signed true (some (suc n)) = if leb n max_int64 then some (negsuc n) else none

-- The digits behind a sign; there is at least one.
abbrev all_digits : String → Option ℕ
all_digits [] = none
all_digits (c ∷ s) = digits_from 0 (c ∷ s)

abbrev at_most_max : ℕ → ℕ
at_most_max n = if leb n max_int64 then n else max_int64

abbrev saturated : Bool → Option ℕ → ℤ
saturated minus none = pos 0
saturated false (some n) = pos (at_most_max n)
saturated true (some zero) = pos 0
saturated true (some (suc n)) = negsuc (at_most_max n)

-- `v, _ := strconv.ParseInt(s, 10, 64)`: 0 where the text is no number, and the end of the range that
-- is nearer where it is outside of the range.
unfoldable pub parse_saturated : String → ℤ
unfolding digits_from
parse_saturated [] = pos 0
parse_saturated (c ∷ s) =
    if eqb (code c) 45
    then saturated true (all_digits s)
    else if eqb (code c) 43
    then saturated false (all_digits s)
    else saturated false (all_digits (c ∷ s))

-- strconv.ParseInt(s, 10, 64)
unfoldable pub parse_int : String → Option ℤ
unfolding digits_from
parse_int [] = none
parse_int (c ∷ s) =
    if eqb (code c) 45
    then signed true (all_digits s)
    else if eqb (code c) 43
    then signed false (all_digits s)
    else signed false (all_digits (c ∷ s))

after_last_test : after_last 58 "0.0.0.0:18110" ≡ some "18110"
unfolding after_last
after_last_test = refl

trim_space_test : trim_space " a b\n" ≡ "a b"
unfolding trim_space
trim_space_test = refl

contains_test : contains "a/../b" ".." ≡ true
unfolding contains has_prefix
contains_test = refl
