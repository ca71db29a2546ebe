-- ===== src/Chat/Validation.antt =====
-- validation.go: the checks that a chat request passes before a rank is asked. Go walks a map in no
-- fixed order; here the keys are taken in the order of the map's list, and only the text of a refusal
-- depends on it; the text of a refusal leaves out the key that it names.
pub mod Expected
pub mod Accepted
use strix_halo_cluster_glm.Base.{
  String, List, [], ◌∷◌, ℕ, Bool, true, false, not, ◌&&◌, ◌||◌, Option, none, some, Result, ok, err,
  refuse, ◌>>=◌, ◌>>◌, ◌==◌, eqb, ltb, if◌then◌else◌, any, all, lookup, length, sprint,
}
use strix_halo_cluster_glm.Base.Integer.{ℤ, pos, negsuc, int_eq}
use strix_halo_cluster_glm.Json.{
  Json, null, number, text, array, object, Map, at, is_null, values, members,
}
use strix_halo_cluster_glm.Chat.Request.{
  Wire, as_array, as_object, string_value, is_object, is_string, is_boolean, is_true, only_keys,
  byte_length, int_le,
}
use strix_halo_cluster_glm.Chat.Envelope.{validate_tool_envelope}

abbrev pub max_chat_output : ℕ
max_chat_output = 32768

abbrev pub safe_engine_context : ℕ
safe_engine_context = 65536

-- supportedReasoning
abbrev pub supported_reasoning : String → Bool
supported_reasoning s = s == "low" || s == "high" || s == "max"

abbrev pub tool_fields : Bool → List String
tool_fields true = "tools" ∷ "tool_choice" ∷ "parallel_tool_calls" ∷ []
tool_fields false = []

abbrev pub chat_fields : List String
chat_fields =
    "messages" ∷ "model" ∷ "stream" ∷ "stream_options" ∷ "max_tokens" ∷ "max_completion_tokens"
    ∷ "thinking_token_budget" ∷ "context_tokens" ∷ "profile" ∷ "reasoning_effort"
    ∷ "chat_template_kwargs" ∷ "temperature" ∷ "top_p" ∷ "top_k" ∷ "min_p" ∷ "presence_penalty"
    ∷ "frequency_penalty" ∷ "repetition_penalty" ∷ "seed" ∷ "n" ∷ "stop" ∷ []

abbrev pub is_allowed : Bool → String → Bool
is_allowed tools key = any (λ k. key == k) chat_fields || any (λ k. key == k) (tool_fields tools)

-- Whether a value that is there passes a test.
abbrev pub absent_or : (Json → Bool) → Option Json → Bool
absent_or test none = true
absent_or test (some v) = test v

abbrev pub is_role : Bool → String → Bool
is_role tools role =
    role == "system" || role == "user" || role == "assistant" || tools && role == "tool"

abbrev pub is_message_field : Bool → String → Bool
is_message_field tools key =
    key == "role"
    || key == "content"
    || tools
      && (key == "tool_calls"
          || key == "tool_call_id"
          || key == "name"
          || key == "reasoning_content")

abbrev pub is_content : Bool → Map → Bool
is_content tools m =
    is_string (at "content" m)
    || tools
      && string_value (at "role" m) == "assistant"
      && is_null (at "content" m)
      && not (is_null (at "tool_calls" m))

unfoldable pub chat_message : Bool → Json → Result (Unit {0})
unfolding at
chat_message tools v = do
  let m = as_object v
  refuse (not (is_object v)) "each message must be an object"
  refuse (not (is_role tools (string_value (at "role" m)))) "unsupported message role"
  refuse (not (all (λ e. is_message_field tools e.0) m)) "unsupported text message field"
  refuse (not (is_content tools m))
      "this text engine requires string message content; multimedia/tool-call envelopes are not qualified"

unfoldable pub chat_messages : Bool → List Json → Result (Unit {0})
unfolding chat_message
chat_messages tools [] = ok tt
chat_messages tools (v ∷ vs) = do chat_message tools v; chat_messages tools vs

abbrev pub is_messages : Json → Bool
is_messages (array vs) = not (eqb (length (values vs)) 0) && not (ltb 512 (length (values vs)))
is_messages _ = false

-- A control with its bounds, which belong to the range.
pub record Bounds : Type 0 where
  pub key : String
  pub lo : ℤ
  pub hi : ℤ

abbrev pub integer_controls : List Bounds
integer_controls =
    record { key = "max_tokens"; lo = pos 1; hi = pos max_chat_output }
    ∷ record { key = "max_completion_tokens"; lo = pos 1; hi = pos max_chat_output }
    ∷ record { key = "thinking_token_budget"; lo = pos 0; hi = pos 32767 }
    ∷ record { key = "context_tokens"; lo = pos 256; hi = pos safe_engine_context }
    ∷ record { key = "top_k"; lo = negsuc 0; hi = pos 200000 }
    ∷ record { key = "n"; lo = pos 1; hi = pos 1 }
    ∷ record { key = "seed"; lo = pos 0; hi = pos 2147483647 }
    ∷ []

abbrev pub within : ℤ → ℤ → Option ℤ → Bool
within lo hi none = false
within lo hi (some n) = int_le lo n && int_le n hi

-- `n, ok := v.(float64)` and its bounds, for an integer.
abbrev pub is_integer_in : Wire → ℤ → ℤ → Json → Bool
is_integer_in w lo hi (number t) = within lo hi (w.whole t)
is_integer_in w lo hi _ = false

unfoldable pub integers_in : Wire → Map → List Bounds → Result (Unit {0})
integers_in w p [] = ok tt
integers_in w p (b ∷ bs) = do
  refuse (not (absent_or (is_integer_in w b.lo b.hi) (lookup b.key p)))
      (sprint ("invalid integer " ∷ b.key ∷ []))
  integers_in w p bs

abbrev pub is_number_in : Wire → String → String → Json → Bool
is_number_in w lo hi (number t) = w.at_most lo t && w.at_most t hi
is_number_in w lo hi _ = false

-- The bounds of the other controls, as texts of numbers.
abbrev pub number_controls : List (String × String × String)
number_controls =
    ("temperature", "0", "2")
    ∷ ("top_p", "0", "1")
    ∷ ("min_p", "0", "1")
    ∷ ("presence_penalty", "-2", "2")
    ∷ ("frequency_penalty", "-2", "2")
    ∷ ("repetition_penalty", "0.01", "2")
    ∷ []

unfoldable pub numbers_in : Wire → Map → List (String × String × String) → Result (Unit {0})
numbers_in w p [] = ok tt
numbers_in w p ((key, lo, hi) ∷ bs) = do
  refuse (not (absent_or (is_number_in w lo hi) (lookup key p))) (sprint ("invalid " ∷ key ∷ []))
  numbers_in w p bs

abbrev pub is_zero_value : Option ℤ → Bool
is_zero_value none = false
is_zero_value (some n) = int_eq n (pos 0)

-- `v == float64(0)`
abbrev pub is_zero : Wire → Json → Bool
is_zero w (number t) = is_zero_value (w.whole t)
is_zero w _ = false

abbrev is_stop : Json → Bool
is_stop v =
    is_string v && not (string_value v == "") && not (ltb 4096 (byte_length (string_value v)))

abbrev stop_values : List Json → Result (Unit {0})
stop_values vs = do
  refuse (ltb 16 (length vs)) "at most16 stop strings"
  refuse (not (all is_stop vs)) "stop strings must be nonempty, at most4096 bytes"

unfoldable pub stop_control : Option Json → Result (Unit {0})
unfolding byte_length
stop_control none = ok tt
stop_control (some (text s)) = stop_values (text s ∷ [])
stop_control (some (array vs)) = stop_values (values vs)
stop_control (some null) = stop_values []
stop_control (some v) = err "stop must be a string or string array"

unfoldable pub template_control : (String → Bool) → Option Json → Result (Unit {0})
template_control reasoning_ok none = ok tt
template_control reasoning_ok (some v) = do
  refuse (not (is_object v)) "chat_template_kwargs must be object"
  refuse
      (not
        (absent_or (λ r. reasoning_ok (string_value r)) (lookup "reasoning_effort" (as_object v))))
      "unknown reasoning effort"

unfoldable pub stream_control : Map → Result (Unit {0})
unfolding at
stream_control p = do
  let options = at "stream_options" p
  refuse (not (is_null options) && not (is_object options)) "stream_options must be object"
  refuse (not (only_keys ("include_usage" ∷ "continuous_usage_stats" ∷ []) (as_object options)))
      "unsupported stream_options field"
  refuse (not (all (λ e. is_boolean e.1) (as_object options)))
      "stream_options flags must be boolean"
  refuse (not (is_null options) && not (is_true (at "stream" p)))
      "stream_options requires stream:true"

abbrev pub tool_control : Wire → Bool → Map → Result (Unit {0})
tool_control w true p = validate_tool_envelope w p
tool_control w false p =
    refuse (not (is_null (at "tools" p)) || not (is_null (at "functions" p)))
      "tools/functions envelopes are not qualified; use coding task API"

-- The checks behind those of the messages.
unfoldable pub controls : Wire → Bool → (String → Bool) → Map → Result (Unit {0})
unfolding integers_in numbers_in stop_control template_control stream_control
controls w tools reasoning_ok p = do
  refuse (not (absent_or is_boolean (lookup "stream" p))) "stream must be boolean"
  integers_in w p integer_controls
  refuse (is_zero w (at "top_k" p)) "top_k must be -1 or a positive integer"
  numbers_in w p number_controls
  refuse (is_zero w (at "top_p" p)) "top_p must be greater than0 and at most1"
  stop_control (lookup "stop" p)
  template_control reasoning_ok (lookup "chat_template_kwargs" p)
  refuse (not (absent_or (λ r. reasoning_ok (string_value r)) (lookup "reasoning_effort" p)))
      "reasoning_effort is not advertised by this model profile"
  stream_control p
  tool_control w tools p

-- validateChatWithReasoning; no map stands for a nil one.
unfoldable pub validate_chat : Wire → Bool → (String → Bool) → Option Map → Result (Unit {0})
unfolding controls chat_messages
validate_chat w tools reasoning_ok none = err "chat body must be an object"
validate_chat w tools reasoning_ok (some p) = do
  refuse (not (all (λ e. is_allowed tools e.0) p)) "unsupported chat field"
  refuse (not (absent_or is_string (lookup "model" p))) "model must be string"
  refuse (not (absent_or is_string (lookup "profile" p))) "profile must be string"
  refuse (not (is_messages (at "messages" p))) "messages must be a nonempty array (maximum512)"
  chat_messages tools (as_array (at "messages" p))
  controls w tools reasoning_ok p
