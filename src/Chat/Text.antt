-- ===== src/Chat/Text.antt =====
-- Searching a generated text: strings.Cut at a text, strings.TrimSpace, and the expression glmArgument
-- of tools.go.
pub mod Shorter
use strix_halo_cluster_glm.Base.{
  List, ℕ, zero, suc, Bool, true, false, ◌&&◌, ◌||◌, Option, none, some, eqb, leb, if◌then◌else◌,
  cut_prefix, is_space, ◌≡◌, refl,
}
use Prim.Native.Char.{Char, code}
use Prim.Native.String.{String, [], ◌∷◌}

abbrev pub pushed : Char → Option (String × String) → Option (String × String)
pushed c none = none
pushed c (some (before, behind)) = some (c ∷ before, behind)

abbrev pub or_later : Option String → Option (String × String) → Option (String × String)
or_later (some behind) later = some ("", behind)
or_later none later = later

-- The text before and behind the first occurrence of a separator that is not empty.
unfoldable pub cut_text : String → String → Option (String × String)
unfolding cut_prefix
cut_text sep [] = none
cut_text sep (c ∷ s) = or_later (cut_prefix sep (c ∷ s)) (pushed c (cut_text sep s))

-- unicode.IsSpace
abbrev is_any_space : ℕ → Bool
is_any_space n =
    is_space n
    || eqb n 133
    || eqb n 160
    || eqb n 5760
    || leb 8192 n && leb n 8202
    || eqb n 8232
    || eqb n 8233
    || eqb n 8239
    || eqb n 8287
    || eqb n 12288

-- `strings.TrimSpace(s) == ""`
unfoldable pub is_blank : String → Bool
unfolding is_space
is_blank [] = true
is_blank (c ∷ s) = is_any_space (code c) && is_blank s

unfoldable pub trimmed_left : String → String
unfolding is_space
trimmed_left [] = []
trimmed_left (c ∷ s) = let rest = trimmed_left s in if is_any_space (code c) then rest else c ∷ s

abbrev kept_end : Char → String → String
kept_end c [] = if is_any_space (code c) then [] else c ∷ []
kept_end c (d ∷ s) = c ∷ d ∷ s

unfoldable pub trimmed_right : String → String
unfolding is_space
trimmed_right [] = []
trimmed_right (c ∷ s) = kept_end c (trimmed_right s)

-- strings.TrimSpace
unfoldable pub trimmed : String → String
unfolding trimmed_left trimmed_right
trimmed s = trimmed_right (trimmed_left s)

-- `\s*` of a regular expression: tab, line feed, form feed, carriage return and space.
unfoldable pub skip_space : String → String
skip_space [] = []
skip_space (c ∷ s) =
    let rest = skip_space s in
    if eqb (code c) 32 || eqb (code c) 9 || eqb (code c) 10 || eqb (code c) 12 || eqb (code c) 13
    then rest
    else c ∷ s

abbrev pub value_behind : Option String → Option (String × String)
value_behind none = none
value_behind (some s) = cut_text "</arg_value>" s

abbrev pub value_at : Option String → Option (String × String)
value_at none = none
value_at (some s) = value_behind (cut_prefix "<arg_value>" (skip_space s))

abbrev pub keyed : Char → Option (String × String × String) → Option (String × String × String)
keyed c none = none
keyed c (some (key, value, behind)) = some (c ∷ key, value, behind)

abbrev pub or_longer :
    Option (String × String) → Option (String × String × String) → Option (String × String × String)
or_longer (some (value, behind)) longer = some ("", value, behind)
or_longer none longer = longer

-- The shortest key behind which a value follows.
unfoldable pub key_value : String → Option (String × String × String)
unfolding cut_text skip_space
key_value [] = none
key_value (c ∷ s) = or_longer (value_at (cut_prefix "</arg_key>" (c ∷ s))) (keyed c (key_value s))

abbrev pub keyed_from : Option String → Option (String × String × String)
keyed_from none = none
keyed_from (some s) = key_value s

-- glmArgument: the key and the value of the first argument, and what is behind it.
unfoldable pub glm_argument : String → Option (String × String × String)
unfolding key_value
glm_argument s = keyed_from (cut_prefix "<arg_key>" (skip_space s))

glm_argument_test :
    glm_argument "\n<arg_key>a</arg_key> <arg_value>1</arg_value>x" ≡ some ("a", "1", "x")
unfolding glm_argument cut_prefix
glm_argument_test = refl
