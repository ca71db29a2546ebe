-- ===== src/Chat/Request.antt =====
-- Reading a chat request: the helpers of model.go and tools.go on decoded JSON.
use strix_halo_cluster_glm.Base.{
  String, List, [], ℕ, zero, suc, ◌+◌, Bool, true, false, ◌&&◌, ◌||◌, Option, Result, ◌==◌, eqb,
  ltb, leb, if◌then◌else◌, any, all, ◌≡◌, refl,
}
use strix_halo_cluster_glm.Base.Integer.{ℤ, pos, negsuc}
use strix_halo_cluster_glm.Json.{Json, boolean, text, array, object, Map, values, members}
use Prim.Native.Char.{code}

-- encoding/json and float64, which are not part of the repository. A number is its text.
pub record Wire : Type 0 where
  -- the one JSON value that a text holds, or an error
  pub decode : String → Result Json
  pub encode : Json → String
  -- how many bytes json.Marshal makes of the value
  pub encoded_length : Json → ℕ
  -- the integer that the float64 of a number's text is, none where it has a fraction
  pub whole : String → Option ℤ
  -- the order of the float64 values of two texts
  pub at_most : String → String → Bool
  -- whether the number of a text is an integer, as math/big reads it
  pub integral : String → Bool

-- `array`
abbrev pub as_array : Json → List Json
as_array (array vs) = values vs
as_array _ = []

-- `object`; the map of anything else is nil, which answers as an empty one.
abbrev pub as_object : Json → Map
as_object (object ms) = members ms
as_object _ = []

-- `stringValue`
abbrev pub string_value : Json → String
string_value (text s) = s
string_value _ = ""

abbrev pub is_object : Json → Bool
is_object (object ms) = true
is_object _ = false

abbrev pub is_string : Json → Bool
is_string (text s) = true
is_string _ = false

abbrev pub is_boolean : Json → Bool
is_boolean (boolean b) = true
is_boolean _ = false

abbrev pub is_false : Json → Bool
is_false (boolean false) = true
is_false _ = false

abbrev pub is_true : Json → Bool
is_true (boolean true) = true
is_true _ = false

-- Whether every key of the map is in the list.
abbrev pub only_keys : List String → Map → Bool
only_keys keys m = all (λ e. any (λ k. e.0 == k) keys) m

abbrev width : ℕ → ℕ
width c = if ltb c 128 then 1 else if ltb c 2048 then 2 else if ltb c 65536 then 3 else 4

-- `len(s)`: the bytes of a text in UTF-8.
unfoldable pub byte_length : String → ℕ
byte_length String.[] = 0
byte_length (String.◌∷◌ c s) = width (code c) + byte_length s

abbrev is_letter : ℕ → Bool
is_letter c = leb 65 c && leb c 90 || leb 97 c && leb c 122 || eqb c 95

abbrev is_name_part : ℕ → Bool
is_name_part c = is_letter c || leb 48 c && leb c 57 || eqb c 45

-- `[A-Za-z0-9_-]{0,n}$`
unfoldable pub name_rest : ℕ → String → Bool
name_rest n String.[] = true
name_rest zero (String.◌∷◌ c s) = false
name_rest (suc n) (String.◌∷◌ c s) = is_name_part (code c) && name_rest n s

-- functionName
unfoldable pub function_name : String → Bool
unfolding name_rest
function_name String.[] = false
function_name (String.◌∷◌ c s) = is_letter (code c) && name_rest 63 s

-- `strings.ContainsAny(s, "\r\n\x00")`
unfoldable pub has_control : String → Bool
has_control String.[] = false
has_control (String.◌∷◌ c s) = eqb (code c) 13 || eqb (code c) 10 || eqb (code c) 0 || has_control s

abbrev pub int_le : ℤ → ℤ → Bool
int_le (pos a) (pos b) = leb a b
int_le (negsuc a) (negsuc b) = leb b a
int_le (negsuc a) (pos b) = true
int_le (pos a) (negsuc b) = false

function_name_test : function_name "read_file-2" ≡ true
unfolding function_name
function_name_test = refl
