-- ===== src/Paired/Stream.antt =====
-- paired.go: the accumulator of a streamed completion (pairedStream). A choice and its message hold
-- Go maps by key, as there; the tool calls of a message are a map by their index.
pub mod Done
pub mod Tests
use strix_halo_cluster_glm.Base.{
  String, List, [], ◌∷◌, ◌++◌, ℕ, Bool, true, false, not, ◌&&◌, ◌||◌, Option, none, some, Result,
  ok, err, ◌==◌, ◌>>=◌, ◌>>◌, refuse, insert, map, eqb, sprint, sprintf_d, if◌then◌else◌,
}
use strix_halo_cluster_glm.Base.Integer.{pos}
use strix_halo_cluster_glm.Json.{
  Json, null, boolean, number, text, array, object, Map, at, is_null, deep_equal, values, members,
  from_values, from_members,
}
use strix_halo_cluster_glm.Paired.Payload.{
  Codec, paired_object, paired_index, paired_choices, output,
}

-- `map[int]V`
abbrev pub Table : Type 0 → Type 0
Table V = List (ℕ × V)

unfoldable pub at_index : {V : Type 0} → ℕ → Table V → Option V
at_index i [] = none
at_index i (entry ∷ rest) =
    let below = at_index i rest in if eqb entry.0 i then some entry.1 else below

unfoldable pub put : {V : Type 0} → ℕ → V → Table V → Table V
put i v [] = (i, v) ∷ []
put i v (entry ∷ rest) =
    let below = put i v rest in if eqb entry.0 i then (i, v) ∷ rest else entry ∷ below

pub record Tool : Type 0 where
  pub members : Map
  pub function : Option Map

pub record Message : Type 0 where
  pub members : Map
  pub tools : Option (Table Tool)

pub record Choice : Type 0 where
  pub members : Map
  pub message : Option Message

pub record Stream : Type 0 where
  pub choices : Table Choice
  pub done : Bool

abbrev pub empty_stream : Stream
empty_stream = record { choices = []; done = false }

abbrev old_text : Json → String
old_text (text s) = s
old_text _ = ""

-- appendGenerated: the map as it is left.
unfoldable pub append_generated : Map → String → Json → Result Map
append_generated m key null = ok m
append_generated m key (text s) = ok (insert key (text (sprint (old_text (at key m) ∷ s ∷ []))) m)
append_generated m key _ = err "nonstring generated delta"

abbrev set_once : Map → String → Json → String → Result Map
set_once m key v message = do
  refuse (not (is_null (at key m)) && not (deep_equal (at key m) v)) message
  ok (insert key v m)

-- Sets `m[key]` where `v` is there, unless another value is set already.
abbrev set_if_given : Map → String → Json → String → Result Map
set_if_given m key v message = if is_null v then ok m else set_once m key v message

abbrev or_empty_map : Option Map → Map
or_empty_map none = []
or_empty_map (some m) = m

abbrev add_function : Tool → Json → Result Tool
add_function t null = ok t
add_function t (object f) = do
  named ← append_generated (or_empty_map t.function) "name" (at "name" (members f))
  filled ← append_generated named "arguments" (at "arguments" (members f))
  ok (record t { function = some filled })
add_function t _ = err "invalid tool function"

abbrev or_new_tool : Option Tool → Tool
or_new_tool none = record { members = []; function = none }
or_new_tool (some t) = t

abbrev add_to_tool : Tool → Map → Result Tool
add_to_tool t call = do
  with_id ← set_if_given t.members "id" (at "id" call) "inconsistent tool identifier"
  with_type ← set_if_given with_id "type" (at "type" call) "inconsistent tool identifier"
  add_function (record t { members = with_type }) (at "function" call)

abbrev tool_delta : Json → Result Map
tool_delta (object call) = ok (members call)
tool_delta _ = err "invalid tool delta"

unfoldable pub add_tools : Codec → Table Tool → List Json → Result (Table Tool)
unfolding append_generated
add_tools c tools [] = ok tools
add_tools c tools (v ∷ vs) = do
  call ← tool_delta v
  i ← paired_index c (at "index" call)
  t ← add_to_tool (or_new_tool (at_index i tools)) call
  add_tools c (put i t tools) vs

abbrev or_no_tools : Option (Table Tool) → Table Tool
or_no_tools none = []
or_no_tools (some t) = t

abbrev add_role : Message → Json → Result Message
add_role m (text role) = do
  refuse (not (is_null (at "role" m.members)) && not (deep_equal (at "role" m.members) (text role)))
      "inconsistent role"
  ok (record m { members = insert "role" (text role) m.members })
add_role m _ = err "inconsistent role"

abbrev add_calls : Codec → Message → Json → Result Message
add_calls c m (array calls) = do
  tools ← add_tools c (or_no_tools m.tools) (values calls)
  ok (record m { tools = some tools })
add_calls c m _ = err "invalid tool deltas"

abbrev add_text : Message → String → Json → Result Message
add_text m key v = do filled ← append_generated m.members key v; ok (record m { members = filled })

-- The `switch` on the key of a delta.
unfoldable pub add_member : Codec → Message → String → Json → Result Message
unfolding append_generated add_tools
add_member c m key null = ok m
add_member c m key v =
    if key == "content" || key == "reasoning" || key == "reasoning_content" || key == "refusal"
    then add_text m key v
    else if key == "role"
    then add_role m v
    else if key == "tool_calls"
    then add_calls c m v
    else err (sprint ("unsupported generated delta field: " ∷ key ∷ []))

unfoldable pub add_delta : Codec → Message → Map → Result Message
unfolding add_member
add_delta c m [] = ok m
add_delta c m ((key, v) ∷ rest) = do m' ← add_member c m key v; add_delta c m' rest

abbrev or_new_message : Option Message → Message
or_new_message none = record { members = []; tools = none }
or_new_message (some m) = m

abbrev with_delta : Codec → Choice → Json → Result Choice
with_delta c s null = ok s
with_delta c s (object delta) = do
  m ← add_delta c (or_new_message s.message) (members delta)
  ok (record s { message = some m })
with_delta c s _ = err "invalid delta"

unfoldable pub checked_ids : Codec → List Json → Result (Unit {0})
checked_ids c [] = ok tt
checked_ids c (v ∷ vs) = do i ← paired_index c v; checked_ids c vs

abbrev old_ids : Json → List Json
old_ids (array vs) = values vs
old_ids _ = []

abbrev with_ids : Codec → Map → Json → Result Map
with_ids c m null = ok m
with_ids c m (array ids) = do
  checked_ids c (values ids)
  ok (insert "token_ids" (array (from_values (old_ids (at "token_ids" m) ++ values ids))) m)
with_ids c m _ = err "invalid token ids"

abbrev or_new_choice : Json → Option Choice → Choice
or_new_choice index none = record { members = ("index", index) ∷ []; message = none }
or_new_choice index (some s) = s

-- The body of the loop of `feed` for one choice: the choice as it is left.
unfoldable pub add_choice : Codec → Choice → Map → Result Choice
unfolding append_generated add_delta checked_ids
add_choice c s v = do
  with_text ← append_generated s.members "text" (at "text" v)
  s' ← with_delta c (record s { members = with_text }) (at "delta" v)
  finished ←
      set_if_given s'.members "finish_reason" (at "finish_reason" v)
        "conflicting choice termination"
  stopped ←
      set_if_given finished "stop_reason" (at "stop_reason" v) "conflicting choice termination"
  counted ← with_ids c stopped (at "token_ids" v)
  ok (record s' { members = counted })

abbrev stream_choice : Json → Result Map
stream_choice (object v) = ok (members v)
stream_choice _ = err "invalid stream choice"

-- The loop of `feed`: the choices and whether one of them has a finish reason.
unfoldable pub add_choices : Codec → Table Choice → Bool → List Json → Result (Table Choice × Bool)
unfolding add_choice
add_choices c choices terminal [] = ok (choices, terminal)
add_choices c choices terminal (cv ∷ cvs) = do
  v ← stream_choice cv
  i ← paired_index c (at "index" v)
  s ← add_choice c (or_new_choice (at "index" v) (at_index i choices)) v
  add_choices c (put i s choices) (terminal || not (is_null (at "finish_reason" v))) cvs

abbrev stream_choices : Json → Result (List Json)
stream_choices (array vs) = ok (values vs)
stream_choices _ = err "missing stream choices"

abbrev feed_object : Codec → Stream → String → Result (Bool × Stream)
feed_object c s b = do
  v ← paired_object c b
  cvs ← stream_choices (at "choices" v)
  x ← add_choices c s.choices false cvs
  ok (x.1, record s { choices = x.0 })

abbrev feed_open : Codec → Stream → String → Bool → Result (Bool × Stream)
feed_open c s b true = ok (true, record s { done = true })
feed_open c s b false = feed_object c s b

-- feed: whether the event is terminal, and the accumulator behind it.
unfoldable pub feed : Codec → Stream → String → Result (Bool × Stream)
unfolding add_choices
feed c s b = if s.done then err "event after DONE" else feed_open c s b (b == "[DONE]")

abbrev function_json : Option Map → Map
function_json none = []
function_json (some f) = ("function", object (from_members f)) ∷ []

abbrev tool_json : Tool → Json
tool_json t = object (from_members (t.members ++ function_json t.function))

abbrev tools_json : Option (Table Tool) → Map
tools_json none = []
tools_json (some ts) =
    ("tool_calls", object (from_members (map (λ e. (sprintf_d (pos e.0), tool_json e.1)) ts))) ∷ []

abbrev message_json : Option Message → Map
message_json none = []
message_json (some m) = ("message", object (from_members (m.members ++ tools_json m.tools))) ∷ []

abbrev choice_json : Choice → Json
choice_json s = object (from_members (s.members ++ message_json s.message))

-- finish
unfoldable pub finish : Codec → Stream → Result Json
finish c s = do
  refuse (not s.done) "stream ended without DONE"
  xs ← paired_choices c (array (from_values (map (λ e. choice_json e.1) s.choices)))
  ok (output xs)

-- The events of a stream, fed in order.
unfoldable pub feed_all : Codec → Stream → List String → Result Stream
unfolding feed
feed_all c s [] = ok s
feed_all c s (b ∷ bs) = do x ← feed c s b; feed_all c x.1 bs
