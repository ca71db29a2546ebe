-- ===== src/Base/FilePath.antt =====
-- Go's `path/filepath` on Unix, and the order of texts that `sort.Strings` uses.
use Prim.Native.Nat.{Ordering}
use Prim.Native.String.{String, compare}
use Prim.Native.String
use mathlib.Core.Path.{◌≡◌, refl}
use mathlib.Core.Bool.{Bool, true, false, ◌&&◌, ◌||◌, not}
use mathlib.Core.List.{List, [], ◌∷◌, ◌++◌, reverse}
use strix_halo_cluster_glm.Base.Tests.{if◌then◌else◌, ◌==◌}
use strix_halo_cluster_glm.Base.Text.{sprint, split, has_prefix}

-- strings.Join
unfoldable pub join : String → List String → String
join sep [] = ""
join sep (s ∷ []) = s
join sep (s ∷ t ∷ ss) = String.◌++◌ s (String.◌++◌ sep (join sep (t ∷ ss)))

unfoldable pub is_abs : String → Bool
is_abs p = has_prefix p "/"

-- One part of a path; the stack has its top at the head.
unfoldable pub resolve : Bool → List String → String → List String
resolve rooted [] part =
    if part == "" || part == "." then [] else if part == ".." && rooted then [] else part ∷ []
resolve rooted (top ∷ stack) part =
    if part == "" || part == "."
    then top ∷ stack
    else if part == ".." && not (top == "..")
    then stack
    else part ∷ top ∷ stack

unfoldable pub resolve_all : Bool → List String → List String → List String
unfolding resolve
resolve_all rooted stack [] = reverse stack
resolve_all rooted stack (part ∷ parts) = resolve_all rooted (resolve rooted stack part) parts

abbrev or_dot : String → String
or_dot s = if s == "" then "." else s

-- filepath.Clean
unfoldable pub clean : String → String
unfolding join is_abs resolve_all split
clean p =
    if is_abs p
    then String.◌++◌ "/" (join "/" (resolve_all true [] (split 47 p)))
    else or_dot (join "/" (resolve_all false [] (split 47 p)))

-- filepath.Join of two elements, the first not empty
unfoldable pub join_path : String → String → String
unfolding clean
join_path dir name = clean (sprint (dir ∷ "/" ∷ name ∷ []))

unfoldable pub without_last : List String → List String
without_last [] = []
without_last (s ∷ []) = []
without_last (s ∷ t ∷ ss) = s ∷ without_last (t ∷ ss)

-- filepath.Dir
unfoldable pub dir_of : String → String
unfolding clean without_last
dir_of p = clean (join "/" (without_last (split 47 p) ++ "" ∷ []))

-- `a < b` on Go strings
abbrev pub text_lt : String → String → Bool
text_lt a b = elim (compare a b) [ Ordering.lt ↦ true | _ ↦ false ]

unfoldable pub insert_text : String → List String → List String
insert_text s [] = s ∷ []
insert_text s (t ∷ ts) = if text_lt t s then t ∷ insert_text s ts else s ∷ t ∷ ts

-- sort.Strings
unfoldable pub sort_texts : List String → List String
unfolding insert_text
sort_texts [] = []
sort_texts (s ∷ ss) = insert_text s (sort_texts ss)

clean_test : clean "/srv//a/./b/../c" ≡ "/srv/a/c"
unfolding clean has_prefix
clean_test = refl

clean_relative : clean "../a/.." ≡ ".."
unfolding clean has_prefix
clean_relative = refl

sort_test : sort_texts ("b" ∷ "c" ∷ "a" ∷ []) ≡ "a" ∷ "b" ∷ "c" ∷ []
unfolding sort_texts
sort_test = refl

dir_of_test : dir_of "/srv/ai/owner.json" ≡ "/srv/ai"
unfolding dir_of has_prefix
dir_of_test = refl
