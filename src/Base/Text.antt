-- ===== src/Base/Text.antt =====
-- The text functions of Go's `strings`, `fmt` and `regexp` that the program uses, over code points.
use Prim.Native.Nat.{ℕ, zero, suc, ◌/◌, ◌%◌}
use Prim.Native.Char.{Char, code}
use Prim.Native.String.{String, [], ◌∷◌}
use Prim.Native.String
use mathlib.Core.Path.{◌≡◌, refl, subst}
use mathlib.Core.Bool.{Bool, true, false, ◌&&◌, ◌||◌}
use mathlib.Core.Option.{Option, none, some}
use mathlib.Core.List.{List}
use mathlib.Core.Logic.{◌≢◌, inl, inr}
use native.Mathlib.Omega.{arith}
use package.text.Mathlib.TextEquality.{eq_iff}
use package.text.Mathlib.TextLemmas.{append-eq-nil_iff, cons-append}
use strix_halo_cluster_glm.Base.Tests.{Bool-cases, ltb, leb, eqb, if◌then◌else◌, ◌==◌}
use strix_halo_cluster_glm.Base.Integer.{ℤ, pos, negsuc}
use strix_halo_cluster_glm.Base.Lists.{get_or}

-- fmt.Sprintf with its pieces written out
unfoldable pub sprint : List String → String
sprint List.[] = ""
sprint (List.◌∷◌ s ss) = String.◌++◌ s (sprint ss)

abbrev push : String → Char → String
push s c = String.◌++◌ s (c ∷ [])

-- strings.Split(s, sep) at a separator of one code point
unfoldable pub split_from : ℕ → String → String → List String
split_from sep cur [] = List.◌∷◌ cur List.[]
split_from sep cur (c ∷ s) =
    let closed = List.◌∷◌ cur (split_from sep "" s) in
    let longer = split_from sep (push cur c) s in if eqb (code c) sep then closed else longer

unfoldable pub split : ℕ → String → List String
unfolding split_from
split sep s = split_from sep "" s

-- strings.Cut at a separator of one code point
unfoldable pub cut : ℕ → String → Option (String × String)
cut sep [] = none
cut sep (c ∷ s) =
    let rest = cut sep s in
    if eqb (code c) sep
    then some ("", s)
    else elim rest [ none ↦ none | some (k, v) ↦ some (c ∷ k, v) ]

-- strings.CutPrefix
unfoldable pub cut_prefix : String → String → Option String
cut_prefix [] s = some s
cut_prefix (p ∷ ps) [] = none
cut_prefix (p ∷ ps) (c ∷ s) =
    let rest = cut_prefix ps s in if eqb (code p) (code c) then rest else none

abbrev is_some {ℓ} : {A : Type ℓ} → Option A → Bool
is_some none = false
is_some (some a) = true

unfoldable pub has_prefix : String → String → Bool
unfolding cut_prefix
has_prefix s p = is_some (cut_prefix p s)

unfoldable pub has_suffix : String → String → Bool
has_suffix [] p = p == ""
has_suffix (c ∷ s) p = let rest = has_suffix s p in (c ∷ s) == p || rest

-- strings.TrimSuffix, for a suffix that is not empty
unfoldable pub trim_suffix : String → String → String
trim_suffix [] p = []
trim_suffix (c ∷ s) p = let rest = trim_suffix s p in if (c ∷ s) == p then "" else c ∷ rest

unfoldable pub contains_char : ℕ → String → Bool
contains_char n [] = false
contains_char n (c ∷ s) = let rest = contains_char n s in eqb (code c) n || rest

-- unicode.IsSpace on ASCII
unfoldable pub is_space : ℕ → Bool
is_space n = eqb n 32 || (leb 9 n && leb n 13)

-- strings.Fields
unfoldable pub fields_from : String → String → List String
unfolding is_space
fields_from cur [] = if cur == "" then List.[] else List.◌∷◌ cur List.[]
fields_from cur (c ∷ s) =
    let fresh = fields_from "" s in
    let longer = fields_from (push cur c) s in
    if is_space (code c) then (if cur == "" then fresh else List.◌∷◌ cur fresh) else longer

unfoldable pub fields : String → List String
unfolding fields_from
fields s = fields_from "" s

-- strings.Trim(s, "\"")
unfoldable pub drop_quotes : String → String
drop_quotes [] = []
drop_quotes (c ∷ s) = let rest = drop_quotes s in if eqb (code c) 34 then rest else c ∷ s

abbrev unquoted_end : Char → String → String
unquoted_end c [] = if eqb (code c) 34 then [] else c ∷ []
unquoted_end c (d ∷ s) = c ∷ d ∷ s

drop_quotes_end : String → String
drop_quotes_end [] = []
drop_quotes_end (c ∷ s) = unquoted_end c (drop_quotes_end s)

unfoldable pub trim_quotes : String → String
unfolding drop_quotes drop_quotes_end
trim_quotes s = drop_quotes_end (drop_quotes s)

-- the regular expression ^[0-9a-f]{32}$
unfoldable pub all_hex : String → Bool
all_hex [] = true
all_hex (c ∷ s) =
    let rest = all_hex s in
    let n = code c in ((leb 48 n && leb n 57) || (leb 97 n && leb n 102)) && rest

unfoldable pub is_hex32 : String → Bool
unfolding all_hex
is_hex32 s = eqb (String.count s) 32 && all_hex s

unfoldable pub digit : ℕ → String
digit d =
    get_or
      (List.◌∷◌ "0" (
        List.◌∷◌ "1" (
          List.◌∷◌ "2" (
            List.◌∷◌ "3"
              (List.◌∷◌ "4" (List.◌∷◌ "5" (List.◌∷◌ "6" (List.◌∷◌ "7" (List.◌∷◌ "8" List.[])))))))))
      d "9"

-- The fuel `n + 1` is more than the number of digits of `n`.
unfoldable pub decimal : ℕ → ℕ → String
unfolding digit
decimal zero n = ""
decimal (suc f) n =
    let more = String.◌++◌ (decimal f (n / 10)) (digit (n % 10)) in
    if ltb n 10 then digit n else more

-- fmt.Sprintf("%d", i)
unfoldable pub sprintf_d : ℤ → String
unfolding decimal
sprintf_d (pos n) = decimal (suc n) n
sprintf_d (negsuc n) = String.◌++◌ "-" (decimal (suc (suc n)) (suc n))

-- Two texts that the test tells apart.
pub ne_of_test : (a b : String) → (a == b) ≡ false → a ≢ b
ne_of_test a b h e = ground (arith, eq_iff a b)

-- A text that is put together behind a part that is not empty.
pub sprint-ne-empty :
    (p : String) (ps : List String) → (p == "") ≡ false → (sprint (List.◌∷◌ p ps) == "") ≡ false
unfolding sprint
sprint-ne-empty p ps h = elim (Bool-cases (sprint (List.◌∷◌ p ps) == "")) [
  | inl e ↦ absurd (ne_of_test p "" h (append-eq-nil_iff.0 ((eq_iff _ _).0 e)).0)
  | inr e ↦ e
]

split_test : split 44 "a,b,,c" ≡ List.◌∷◌ "a" (List.◌∷◌ "b" (List.◌∷◌ "" (List.◌∷◌ "c" List.[])))
unfolding split
split_test = refl

cut_test : cut 61 "A=b=c" ≡ some ("A", "b=c")
unfolding cut
cut_test = refl

fields_test : fields " ab  c " ≡ List.◌∷◌ "ab" (List.◌∷◌ "c" List.[])
unfolding fields
fields_test = refl

trim_quotes_test : trim_quotes "\"a\"" ≡ "a"
unfolding trim_quotes
trim_quotes_test = refl

sprintf_d_test : sprintf_d (pos 29643) ≡ "29643"
unfolding sprintf_d
sprintf_d_test = refl

has_prefix-append : (p s : String) → has_prefix (String.◌++◌ p s) p ≡ true
unfolding has_prefix
has_prefix-append [] s = refl
has_prefix-append (c ∷ p) s = rw (cons-append c p s) (ground (arith, has_prefix-append p s))

-- A text that is put together behind a part that another text does not begin with.
pub sprint-ne-of_prefix :
    (p : String) (ps : List String) (x : String)
    → has_prefix x p ≡ false
    → (sprint (List.◌∷◌ p ps) == x) ≡ false
unfolding sprint
sprint-ne-of_prefix p ps x h = elim (Bool-cases (String.◌++◌ p (sprint ps) == x)) [
  | inl e ↦ absurd (
      let same = (eq_iff (String.◌++◌ p (sprint ps)) x).0 e in
      let begins = subst (λ t. has_prefix t p ≡ true) same (has_prefix-append p (sprint ps)) in cc)
  | inr e ↦ e
]
