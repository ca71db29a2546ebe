-- ===== src/Json.antt =====
-- A decoded JSON value as the Go code holds it with `UseNumber`: null (Go's nil), and a number as its
-- text. An object is a Go map.
use strix_halo_cluster_glm.Base.{
  String, List, [], ◌∷◌, Bool, true, false, ◌&&◌, Option, none, some, ◌==◌, lookup, length, eqb,
}

mutual
  pub data Json : Type 0 where
    null : Json
    boolean : Bool → Json
    number text : String → Json
    array : Values → Json
    object : Members → Json

  pub data Values : Type 0 where
    no_value : Values
    value : Json → Values → Values

  pub data Members : Type 0 where
    no_member : Members
    member : String → Json → Members → Members

abbrev pub values : Values → List Json
values no_value = []
values (value v vs) = v ∷ values vs

abbrev pub from_values : List Json → Values
from_values [] = no_value
from_values (v ∷ vs) = value v (from_values vs)

-- The map of an object.
abbrev pub Map : Type 0
Map = List (String × Json)

abbrev pub members : Members → Map
members no_member = []
members (member k v ms) = (k, v) ∷ members ms

abbrev pub from_members : Map → Members
from_members [] = no_member
from_members ((k, v) ∷ ms) = member k v (from_members ms)

abbrev or_null : Option Json → Json
or_null none = null
or_null (some v) = v

-- `m[k]` on a `map[string]any`
unfoldable pub at : String → Map → Json
at k m = or_null (lookup k m)

abbrev pub is_null : Json → Bool
is_null null = true
is_null _ = false

-- `v == "..."` on an `any`
abbrev pub is_text : Json → String → Bool
is_text (text s) t = s == t
is_text _ t = false

abbrev if_same : Bool → Bool → Bool
if_same true b = b
if_same false true = false
if_same false false = true

abbrev member_equal : (Json → Bool) → Option Json → Bool
member_equal same none = false
member_equal same (some v) = same v

-- reflect.DeepEqual on decoded values: maps are equal where they are of one size and each key of
-- the first has an equal value in the second.
unfoldable mutual
  pub deep_equal : Json → Json → Bool
  deep_equal null null = true
  deep_equal (boolean a) (boolean b) = if_same a b
  deep_equal (number a) (number b) = a == b
  deep_equal (text a) (text b) = a == b
  deep_equal (array vs) (array ws) = values_equal vs (values ws)
  deep_equal (object ms) (object ns) =
      eqb (length (members ms)) (length (members ns)) && members_equal ms (members ns)
  deep_equal _ _ = false

  pub values_equal : Values → List Json → Bool
  values_equal no_value [] = true
  values_equal (value v vs) (w ∷ ws) = deep_equal v w && values_equal vs ws
  values_equal _ _ = false

  pub members_equal : Members → Map → Bool
  members_equal no_member ns = true
  members_equal (member k v ms) ns =
      member_equal (deep_equal v) (lookup k ns) && members_equal ms ns
