-- ===== src/Chat/Calls.antt =====
-- tools.go: the tool calls in a generated text, typedToolValue and parseGLMToolOutput. The loops run on
-- fuel, which is more than the text is long; `none` means that it ran out.
pub mod Ends
pub mod Declared
use strix_halo_cluster_glm.Base.{
  String, List, [], ◌∷◌, ◌++◌, ℕ, zero, suc, Bool, true, false, not, ◌&&◌, ◌||◌, Option, none, some,
  Result, ok, err, refuse, ◌>>=◌, ◌>>◌, ◌==◌, eqb, ltb, if◌then◌else◌, all, lookup, insert, length,
  sprint, cut_prefix, trim_suffix,
}
use strix_halo_cluster_glm.Json.{
  Json, null, boolean, number, text, array, object, Map, at, is_null, is_text, from_members,
}
use strix_halo_cluster_glm.Chat.Request.{
  Wire, as_array, as_object, string_value, is_object, is_boolean, is_false,
}
use strix_halo_cluster_glm.Chat.Text.{cut_text, is_blank, trimmed, glm_argument}
use strix_halo_cluster_glm.Chat.Text.Shorter.{size}

abbrev is_array : Json → Bool
is_array (array vs) = true
is_array _ = false

abbrev is_number : Json → Bool
is_number (number t) = true
is_number _ = false

abbrev is_integer : Wire → Json → Bool
is_integer w (number t) = w.integral t
is_integer w _ = false

abbrev checked_value : Wire → Json → Json → Result Json
checked_value w typ v =
    if is_text typ "number"
    then (refuse (not (is_number v)) "expected number" >> ok v)
    else if is_text typ "integer"
    then (refuse (not (is_integer w v)) "expected integer" >> ok v)
    else if is_text typ "boolean"
    then (refuse (not (is_boolean v)) "expected boolean" >> ok v)
    else if is_text typ "array"
    then (refuse (not (is_array v)) "expected array" >> ok v)
    else if is_text typ "object"
    then (refuse (not (is_object v)) "expected object" >> ok v)
    else err "unsupported non-string tool argument type"

-- typedToolValue; the decoding refuses what is no JSON value or more than one.
unfoldable pub typed_tool_value : Wire → String → Map → Result Json
unfolding at
typed_tool_value w raw schema =
    if is_text (at "type" schema) "string" || is_null (at "type" schema)
    then ok (text raw)
    else w.decode raw >>= checked_value w (at "type" schema)

-- toolDefinitions: the last function of a name stands.
unfoldable pub definitions_from : List (String × Map) → List Json → List (String × Map)
unfolding insert at
definitions_from defs [] = defs
definitions_from defs (v ∷ vs) =
    let f = as_object (at "function" (as_object v)) in
    definitions_from (insert (string_value (at "name" f)) f defs) vs

abbrev pub definitions : Map → List (String × Map)
definitions p = definitions_from [] (as_array (at "tools" p))

abbrev is_there : Option Json → Bool
is_there none = false
is_there (some v) = true

abbrev or_nil : Option Json → Json
or_nil none = null
or_nil (some v) = v

-- One argument, added to those before it.
unfoldable pub argument : Wire → Map → Map → String → String → Result Map
unfolding typed_tool_value lookup
argument w schema args key value = do
  let property = lookup key (as_object (at "properties" schema))
  refuse (is_there (lookup key args)) "duplicate tool argument"
  refuse (not (is_there property) && is_false (at "additionalProperties" schema))
      (sprint ("unknown argument " ∷ key ∷ []))
  converted ← typed_tool_value w value (as_object (or_nil property))
  ok (insert key converted args)

abbrev pub then_arguments : Result Map → (Map → Option (Result Map)) → Option (Result Map)
then_arguments (err e) next = some (err e)
then_arguments (ok args) next = next args

abbrev pub next_argument :
    Wire
    → Map
    → Map
    → Option (String × String × String)
    → (String → Map → Option (Result Map))
    → Option (Result Map)
next_argument w schema args none next = some (err "malformed GLM47 argument delimiters")
next_argument w schema args (some (key, value, behind)) next =
    then_arguments (argument w schema args (trimmed key) value) (next behind)

-- The loop over the arguments of a call.
unfoldable pub arguments : Wire → Map → ℕ → String → Map → Option (Result Map)
unfolding argument glm_argument
arguments w schema zero raw args = none
arguments w schema (suc n) raw args = elim (is_blank raw) [
  | true ↦ some (ok args)
  | false ↦ next_argument w schema args (glm_argument raw) (arguments w schema n)
]

pub record ToolCall : Type 0 where
  pub id : String
  pub name : String
  pub arguments_text : String

-- The name of a call and the text of its arguments.
abbrev pub head_of : String → Option (String × String) → String × String
head_of block none = (trimmed block, "")
head_of block (some (before, behind)) = (trimmed before, sprint ("<arg_key>" ∷ behind ∷ []))

abbrev pub has_required : Map → Map → Bool
has_required schema args =
    all (λ k. is_there (lookup (string_value k) args)) (as_array (at "required" schema))

abbrev pub finished_call :
    Wire → String → String → Map → Option (Result Map) → Option (Result ToolCall)
finished_call w id name schema none = none
finished_call w id name schema (some (err e)) = some (err e)
finished_call w id name schema (some (ok args)) =
    if has_required schema args
    then some (
        ok (record {
          id = sprint ("call_" ∷ id ∷ []);
          name = name;
          arguments_text = w.encode (object (from_members args));
        }))
    else some (err "missing required tool argument")

abbrev pub defined_call : Wire → String → String → String → Option Map → Option (Result ToolCall)
defined_call w id name raw none =
    some (err (sprint ("model requested unknown tool \"" ∷ name ∷ "\"" ∷ [])))
defined_call w id name raw (some def) =
    let schema = as_object (at "parameters" def) in
    finished_call w id name schema (arguments w schema (suc (size raw)) raw [])

-- One call, from its block.
unfoldable pub tool_call : Wire → List (String × Map) → String → String → Option (Result ToolCall)
unfolding arguments size
tool_call w defs id block =
    let (name, raw) = head_of block (cut_text "<arg_key>" block) in
    defined_call w id name raw (lookup name defs)

-- What the loop over the calls collects.
pub record Generated : Type 0 where
  pub prose : String
  pub calls : List ToolCall

abbrev pub with_call :
    Generated
    → String
    → Option (Result ToolCall)
    → (Generated → Option (Result Generated))
    → Option (Result Generated)
with_call g before none next = none
with_call g before (some (err e)) next = some (err e)
with_call g before (some (ok c)) next =
    if ltb 32 (length (g.calls ++ c ∷ []))
    then some (err "too many generated tool calls")
    else next (record { prose = sprint (g.prose ∷ before ∷ []); calls = g.calls ++ c ∷ [] })

abbrev pub in_block :
    Wire
    → List (String × Map)
    → (ℕ → String)
    → Generated
    → String
    → Option (String × String)
    → (String → Generated → Option (Result Generated))
    → Option (Result Generated)
in_block w defs ids g before none next = some (err "unterminated tool call")
in_block w defs ids g before (some (block, behind)) next =
    with_call g before (tool_call w defs (ids (length g.calls)) block) (next behind)

abbrev pub at_call :
    Wire
    → List (String × Map)
    → (ℕ → String)
    → Generated
    → String
    → Option (String × String)
    → (String → Generated → Option (Result Generated))
    → Option (Result Generated)
at_call w defs ids g content none next =
    some (ok (record g { prose = sprint (g.prose ∷ content ∷ []) }))
at_call w defs ids g content (some (before, behind)) next =
    in_block w defs ids g before (cut_text "</tool_call>" behind) next

-- The loop over the calls of a text; `ids` are the random parts of their ids.
unfoldable pub tool_calls :
    Wire → List (String × Map) → (ℕ → String) → ℕ → String → Generated → Option (Result Generated)
unfolding tool_call cut_text
tool_calls w defs ids zero content g = none
tool_calls w defs ids (suc n) content g =
    at_call w defs ids g content (cut_text "<tool_call>" content) (tool_calls w defs ids n)

-- The assistant's message and why it ended.
pub record Turn : Type 0 where
  pub content : String
  pub reasoning : String
  pub calls : List ToolCall
  pub finish : String

abbrev pub or_same : String → Option String → String
or_same s none = s
or_same s (some rest) = rest

-- The text behind the reasoning, without the tokens that end a turn.
abbrev ended : String → String
ended content = trim_suffix (trim_suffix (trim_suffix content "<|user|>") "<|endoftext|>") "[gMASK]"

abbrev pub segments : String → String → Option (String × String) → Result (String × String)
segments finish raw (some (reasoning, content)) = ok (reasoning, ended content)
segments finish raw none =
    if finish == "length"
    then ok (raw, "")
    else err "GLM output ended without closing its reasoning segment"

abbrev pub with_calls : Map → String → Option (Result Generated) → Option (Result Turn)
with_calls p reasoning none = none
with_calls p reasoning (some (err e)) = some (err e)
with_calls p reasoning (some (ok g)) =
    if is_false (at "parallel_tool_calls" p) && ltb 1 (length g.calls)
    then some (err "model emitted multiple tools despite parallel_tool_calls:false")
    else some (
        ok (record {
          content = g.prose;
          reasoning = reasoning;
          calls = g.calls;
          finish = "tool_calls";
        }))

abbrev pub told :
    Wire
    → (ℕ → String)
    → String
    → Map
    → String
    → String
    → Option (String × String)
    → Option (Result Turn)
told w ids finish p reasoning content none =
    some (ok (record { content = content; reasoning = reasoning; calls = []; finish = finish }))
told w ids finish p reasoning content (some cut) = elim (finish == "stop") [
  | false ↦ some (ok (record { content = ""; reasoning = reasoning; calls = []; finish = finish }))
  | true ↦ with_calls p reasoning (
      tool_calls w (definitions p) ids (suc (size content)) content
        (record { prose = ""; calls = [] }))
]

abbrev pub in_segments :
    Wire → (ℕ → String) → String → Map → Result (String × String) → Option (Result Turn)
in_segments w ids finish p (err e) = some (err e)
in_segments w ids finish p (ok (reasoning, content)) =
    told w ids finish p reasoning content (cut_text "<tool_call>" content)

-- parseGLMToolOutput
unfoldable pub parse_glm_tool_output :
    Wire → (ℕ → String) → String → String → Map → Option (Result Turn)
unfolding tool_calls definitions_from
parse_glm_tool_output w ids raw finish p =
    let out = or_same raw (cut_prefix "<think>" raw) in
    in_segments w ids finish p (segments finish out (cut_text "</think>" out))
