-- ===== src/Chat/Envelope.antt =====
-- tools.go: validateToolEnvelope, the function tools of a request and the calls in its transcript. A
-- Go set of texts is the list of the texts put in it.
pub mod Answered
use strix_halo_cluster_glm.Base.{
  String, List, [], ◌∷◌, ◌++◌, ℕ, Bool, true, false, not, ◌&&◌, ◌||◌, Option, none, some, Result,
  ok, err, refuse, ◌>>=◌, ◌>>◌, ◌==◌, eqb, ltb, if◌then◌else◌, any, all, lookup, length,
}
use strix_halo_cluster_glm.Json.{
  Json, array, object, text, Map, at, is_null, is_text, values, members,
}
use strix_halo_cluster_glm.Chat.Request.{
  Wire, as_array, as_object, string_value, is_object, is_string, is_boolean, is_false, only_keys,
  byte_length, function_name, has_control,
}

abbrev pub has : List String → String → Bool
has seen x = any (λ y. y == x) seen

abbrev no_key : Option Json → Bool
no_key none = true
no_key (some v) = false

-- The keys that a schema requires.
unfoldable pub required_from : Map → List String → List Json → Result (Unit {0})
required_from properties seen [] = ok tt
required_from properties seen (v ∷ vs) = do
  refuse
      (not (is_string v)
        || string_value v == ""
        || has seen (string_value v)
        || is_null (at (string_value v) properties))
      "required tool keys must be unique declared properties"
  required_from properties (string_value v ∷ seen) vs

abbrev pub required_properties : Map → Option Json → Result (Unit {0})
required_properties properties none = ok tt
required_properties properties (some (array vs)) = required_from properties [] (values vs)
required_properties properties (some v) = err "tool required must be a string array"

-- The parameters of a function.
unfoldable pub tool_schema : Json → Result (Unit {0})
unfolding required_from
tool_schema v = do
  let schema = as_object v
  refuse (not (is_object v) || not (is_text (at "type" schema) "object"))
      "tool parameters must have object schema"
  refuse (not (is_null (at "properties" schema)) && not (is_object (at "properties" schema)))
      "tool properties must be object"
  let properties = as_object (at "properties" schema)
  refuse (any (λ e. not (is_object e.1) || e.0 == "") properties)
      "each tool property must be a named schema object"
  required_properties properties (lookup "required" schema)

-- One tool of the list; `defs` are the names before it.
unfoldable pub tool_definition : List String → Json → Result String
unfolding tool_schema
tool_definition defs v = do
  let t = as_object v
  let f = as_object (at "function" t)
  let name = string_value (at "name" f)
  refuse (not (is_text (at "type" t) "function") || not (function_name name) || has defs name)
      "unique named function tools required"
  refuse (not (only_keys ("type" ∷ "function" ∷ []) t)) "unsupported tool field"
  refuse (not (only_keys ("name" ∷ "description" ∷ "parameters" ∷ "strict" ∷ []) f))
      "unsupported function field"
  refuse (not (is_null (at "description" f)) && not (is_string (at "description" f)))
      "tool description must be string"
  refuse (not (is_null (at "strict" f)) && not (is_false (at "strict" f)))
      "strict schema generation is not supported"
  tool_schema (at "parameters" f)
  ok name

unfoldable pub tool_definitions : List String → List Json → Result (Unit {0})
unfolding tool_definition
tool_definitions defs [] = ok tt
tool_definitions defs (v ∷ vs) = do name ← tool_definition defs v; tool_definitions (name ∷ defs) vs

abbrev pub tool_list : Option Json → Result (Unit {0})
tool_list none = ok tt
tool_list (some (array vs)) = do
  refuse (ltb 32 (length (values vs))) "tools must be an array, maximum32"
  tool_definitions [] (values vs)
tool_list (some v) = err "tools must be an array, maximum32"

abbrev pub call_id : Json → String
call_id v = string_value (at "id" (as_object v))

abbrev is_encoded_object : Result Json → Bool
is_encoded_object (ok v) = is_object v
is_encoded_object (err e) = false

abbrev pub is_bad_call : List String → Json → Bool
is_bad_call used v =
    let tid = call_id v in
    not (is_text (at "type" (as_object v)) "function")
    || tid == ""
    || ltb 128 (byte_length tid)
    || has_control tid
    || has used tid
    || not (function_name (string_value (at "name" (as_object (at "function" (as_object v))))))

-- One call of an assistant's message.
unfoldable pub historical_call : Wire → List String → Json → Result (Unit {0})
unfolding at
historical_call w used v = do
  let c = as_object v
  let f = as_object (at "function" c)
  refuse (is_bad_call used v) "invalid or duplicate historical tool call"
  refuse (not (is_encoded_object (w.decode (string_value (at "arguments" f)))))
      "tool arguments must encode a JSON object"
  refuse (not (only_keys ("id" ∷ "type" ∷ "function" ∷ []) c))
      "unsupported historical tool-call field"

-- The calls that wait for their result, and all calls so far. A new call's id is in neither set.
pub record Calls : Type 0 where
  pub pending : List String
  pub used : List String

-- The calls of one message.
unfoldable pub call_all : Wire → Calls → List Json → Result Calls
unfolding historical_call
call_all w s [] = ok s
call_all w s (v ∷ vs) = do
  historical_call w s.used v
  call_all w (record { pending = call_id v ∷ s.pending; used = call_id v ∷ s.used }) vs

abbrev pub historical_calls : Wire → String → Calls → Option Json → Result Calls
historical_calls w role s none = ok s
historical_calls w role s (some (array vs)) = do
  refuse (not (role == "assistant") || eqb (length (values vs)) 0 || ltb 32 (length (values vs)))
      "invalid assistant tool_calls"
  call_all w s (values vs)
historical_calls w role s (some v) = err "invalid assistant tool_calls"

-- `delete(pending, tid)`
unfoldable pub delete : String → List String → List String
delete x [] = []
delete x (y ∷ ys) = let rest = delete x ys in if y == x then rest else y ∷ rest

abbrev pub is_bad_result : Calls → Map → Bool
is_bad_result s m =
    not (has s.pending (string_value (at "tool_call_id" m))) || not (is_null (at "tool_calls" m))

-- A tool's message takes a waiting call.
unfoldable pub tool_result : Calls → Map → Result Calls
unfolding delete
tool_result s m = do
  refuse (is_bad_result s m) "tool result must match an unanswered assistant call"
  ok (record s { pending = delete (string_value (at "tool_call_id" m)) s.pending })

abbrev pub is_empty : List String → Bool
is_empty [] = true
is_empty (x ∷ xs) = false

abbrev spoken : Wire → String → Calls → Map → Result Calls
spoken w role s m = do
  refuse (not (is_null (at "tool_call_id" m))) "tool_call_id belongs only to a tool response"
  refuse (not (is_empty s.pending)) "all tool results must precede the next non-tool message"
  historical_calls w role s (lookup "tool_calls" m)

-- One message of the transcript.
unfoldable pub turn : Wire → Calls → Json → Result Calls
unfolding call_all tool_result
turn w s v = do
  let m = as_object v
  let role = string_value (at "role" m)
  refuse (not (is_null (at "reasoning_content" m)) && not (role == "assistant"))
      "reasoning_content belongs only to assistant"
  refuse (not (is_null (at "reasoning_content" m)) && not (is_string (at "reasoning_content" m)))
      "reasoning_content must be string"
  refuse (not (is_null (at "name" m)) && not (function_name (string_value (at "name" m))))
      "invalid message name"
  if role == "tool" then tool_result s m else spoken w role s m

unfoldable pub turns : Wire → Calls → List Json → Result Calls
unfolding turn
turns w s [] = ok s
turns w s (v ∷ vs) = do s' ← turn w s v; turns w s' vs

abbrev is_auto : Option Json → Bool
is_auto none = true
is_auto (some v) = is_text v "auto"

abbrev is_flag : Option Json → Bool
is_flag none = true
is_flag (some v) = is_boolean v

-- validateToolEnvelope
unfoldable pub validate_tool_envelope : Wire → Map → Result (Unit {0})
unfolding tool_definitions turns
validate_tool_envelope w p = do
  tool_list (lookup "tools" p)
  refuse (not (is_auto (lookup "tool_choice" p)))
      "only tool_choice:auto is supported; forced/none choices are not silently ignored"
  refuse (not (is_flag (lookup "parallel_tool_calls" p))) "parallel_tool_calls must be boolean"
  s ← turns w (record { pending = []; used = [] }) (as_array (at "messages" p))
  refuse (not (is_empty s.pending)) "tool results are missing; no new generation dispatched"
