-- ===== src/Paired/Payload.antt =====
-- paired.go: reading a payload, and the choices that a completion has generated.
use strix_halo_cluster_glm.Base.{
  String, List, [], ◌∷◌, ℕ, Bool, true, false, not, ◌&&◌, ◌||◌, Option, none, some, Result, ok, err,
  ◌==◌, ◌>>=◌, ◌>>◌, refuse, any, map, eqb, ltb, if◌then◌else◌,
}
use strix_halo_cluster_glm.Json.{
  Json, number, text, array, object, Map, at, is_null, is_text, values, members, from_values,
  from_members,
}

-- encoding/json and strconv, which are not part of the repository.
pub record Codec : Type 1 where
  -- the one JSON value that a text holds, or an error
  pub decode : String → Result Json
  pub encode : Json → Result String
  -- strconv.Atoi of a number's text that is not negative
  pub atoi : String → Option ℕ
  pub Float : Type 0
  pub parse_float : String → Option Float
  pub float_less : Float → Float → Bool
  pub format_float : Float → String

abbrev checked_object : Json → Result Map
checked_object (object ms) = ok (members ms)
checked_object _ = err "JSON must be object"

-- pairedObject
unfoldable pub paired_object : Codec → String → Result Map
unfolding at
paired_object c b = do
  v ← c.decode b
  m ← checked_object v
  refuse
      (not (is_null (at "error" m))
        || is_text (at "type" m) "error"
        || is_text (at "type" m) "response.failed"
        || is_text (at "status" m) "failed")
      "upstream error payload"
  ok m

abbrev index_from : Option ℕ → Result ℕ
index_from none = err "invalid index"
index_from (some i) = ok i

-- pairedIndex
unfoldable pub paired_index : Codec → Json → Result ℕ
paired_index c (number n) = index_from (c.atoi n)
paired_index c _ = err "noninteger index"

abbrev pub as_map : Json → Option Map
as_map (object ms) = some (members ms)
as_map _ = none

abbrev pub is_a_text : Json → Bool
is_a_text (text s) = true
is_a_text _ = false

abbrev pub is_a_map : Json → Bool
is_a_map (object ms) = true
is_a_map _ = false

-- `finish, ok := v.(string); !ok || finish == ""`
abbrev no_finish : Json → Bool
no_finish (text s) = s == ""
no_finish _ = true

-- The members of a choice that are compared between the ranks.
abbrev pub choice_keys : List String
choice_keys = "index" ∷ "text" ∷ "message" ∷ "finish_reason" ∷ "stop_reason" ∷ "token_ids" ∷ []

unfoldable pub kept : List String → Map → Map
kept [] m = []
kept (k ∷ ks) m = let rest = kept ks m in if is_null (at k m) then rest else (k, at k m) ∷ rest

abbrev checked_index : Result ℕ → List ℕ → Result ℕ
checked_index (err e) seen = err "invalid/duplicate choice index"
checked_index (ok i) seen = do refuse (any (eqb i) seen) "invalid/duplicate choice index"; ok i

abbrev checked_choice : Json → Result Map
checked_choice (object ms) = ok (members ms)
checked_choice _ = err "invalid choice"

-- One round of the loop of `pairedChoices`.
unfoldable pub choice : Codec → List ℕ → Json → Result (ℕ × Map)
unfolding paired_index kept at
choice c seen v = do
  m ← checked_choice v
  i ← checked_index (paired_index c (at "index" m)) seen
  refuse (no_finish (at "finish_reason" m)) "missing finish reason"
  refuse (not (is_a_text (at "text" m)) && not (is_a_map (at "message" m)))
      "choice has no generated output"
  ok (i, kept choice_keys m)

unfoldable pub choices_from : Codec → List ℕ → List Json → Result (List (ℕ × Map))
unfolding choice
choices_from c seen [] = ok []
choices_from c seen (v ∷ vs) = do
  x ← choice c seen v
  xs ← choices_from c (x.0 ∷ seen) vs
  ok (x ∷ xs)

unfoldable pub insert_choice : ℕ × Map → List (ℕ × Map) → List (ℕ × Map)
insert_choice x [] = x ∷ []
insert_choice x (y ∷ ys) =
    let rest = insert_choice x ys in if ltb y.0 x.0 then y ∷ rest else x ∷ y ∷ ys

-- sort.Slice by the index
unfoldable pub sort_choices : List (ℕ × Map) → List (ℕ × Map)
unfolding insert_choice
sort_choices [] = []
sort_choices (x ∷ xs) = insert_choice x (sort_choices xs)

abbrev checked_array : Json → Result (List Json)
checked_array (array vs) = elim (values vs) [
  | [] ↦ err "missing generated choices"
  | v ∷ rest ↦ ok (v ∷ rest)
]
checked_array _ = err "missing generated choices"

-- pairedChoices
unfoldable pub paired_choices : Codec → Json → Result (List (ℕ × Map))
unfolding choices_from sort_choices
paired_choices c v = do vs ← checked_array v; xs ← choices_from c [] vs; ok (sort_choices xs)

abbrev pub output : List (ℕ × Map) → Json
output xs = array (from_values (map (λ x. object (from_members x.1)) xs))

-- pairedJSONOutput
unfoldable pub paired_json_output : Codec → String → Result Json
unfolding paired_object paired_choices
paired_json_output c b = do
  m ← paired_object c b
  xs ← paired_choices c (at "choices" m)
  ok (output xs)
