-- ===== src/Chat/Tests.antt =====
-- Runs of the checks of a chat request on the request of Chat/Samples.
use strix_halo_cluster_glm.Base.{
  List, Result, String, [], cut_prefix, false, insert, lookup, ok, parse_int, refl, some, sprint,
  sprintf_d, trim_suffix, true, ℕ, ◌∷◌, ◌≡◌, ◌≤◌,
}
use strix_halo_cluster_glm.Json.{Json, Map, at}
use strix_halo_cluster_glm.Chat.Request.{as_array, byte_length, function_name, has_control}
use strix_halo_cluster_glm.Chat.Envelope.{validate_tool_envelope}
use strix_halo_cluster_glm.Chat.Envelope.Answered.{IsAnswered, validate_tool_envelope-IsAnswered}
use strix_halo_cluster_glm.Chat.Validation.{validate_chat, supported_reasoning}
use strix_halo_cluster_glm.Chat.Validation.Expected.{IsAccepted}
use strix_halo_cluster_glm.Chat.Validation.Accepted.{validate_chat-IsAccepted}
use strix_halo_cluster_glm.Chat.Budget.{ChatSettings, prepare_chat, admit_chat}
use strix_halo_cluster_glm.Chat.Budget.Fits.{Fits, IsPrepared, admit_chat-prepare_chat}
use strix_halo_cluster_glm.Chat.Parts.{normalize_tool_text}
use strix_halo_cluster_glm.Chat.Parts.Joined.{AreNormal, normalize_tool_text-AreNormal}
use strix_halo_cluster_glm.Chat.Text.{is_blank, trimmed, skip_space}
use strix_halo_cluster_glm.Chat.Calls.{Turn, parse_glm_tool_output}
use strix_halo_cluster_glm.Chat.Calls.Ends.{parse_glm_tool_output-ends}
use strix_halo_cluster_glm.Chat.Calls.Declared.{IsReleased, parse_glm_tool_output-IsReleased}
use strix_halo_cluster_glm.Chat.Samples.{
  wire, chat_config, request, counted, reader, generated, parts,
}

envelope_run : validate_tool_envelope wire request ≡ ok tt
unfolding validate_tool_envelope at lookup byte_length function_name has_control
envelope_run = refl

validate_tool_envelope-IsAnswered_example : IsAnswered (as_array (at "messages" request))
validate_tool_envelope-IsAnswered_example =
    validate_tool_envelope-IsAnswered wire request envelope_run

chat_run : validate_chat wire true supported_reasoning (some request) ≡ ok tt
unfolding validate_chat validate_tool_envelope at lookup byte_length function_name has_control
    parse_int
chat_run = refl

validate_chat-IsAccepted_example : IsAccepted wire true request
validate_chat-IsAccepted_example =
    validate_chat-IsAccepted wire supported_reasoning request true chat_run

abbrev part_of : Result (Map × ChatSettings) → Map × ChatSettings
part_of (ok x) = x
part_of _ = (
  [],
  record {
    reasoning = "";
    context = 0;
    output = 0;
    prompt = 0;
    automatic = false;
    count_source = "";
    token_ids = [];
  },
)

abbrev first : Map × ChatSettings
first = part_of (prepare_chat wire chat_config request)

abbrev second : Map × ChatSettings
second = part_of (admit_chat wire chat_config (some (ok counted)) first.0 first.1)

prepare_run : prepare_chat wire chat_config request ≡ ok (first.0, first.1)
unfolding prepare_chat at lookup insert parse_int sprintf_d
prepare_run = refl

admit_run :
    admit_chat wire chat_config (some (ok counted)) first.0 first.1 ≡ ok (second.0, second.1)
unfolding prepare_chat admit_chat at lookup insert parse_int sprintf_d
admit_run = refl

admit_chat-prepare_chat_example :
    Fits wire chat_config second.0 second.1
    × (second.1.output ≤ first.1.output)
    × (second.1.context ≤ first.1.context)
    × IsPrepared wire chat_config request first.1
admit_chat-prepare_chat_example =
    admit_chat-prepare_chat wire chat_config (some (ok counted)) request first.0 second.0 first.1
      second.1 prepare_run admit_run

abbrev ids : ℕ → String
ids n = "7"

abbrev released : Turn
released = record {
  content = "Look. ";
  reasoning = "";
  calls = record { id = "call_7"; name = "read"; arguments_text = "{}" } ∷ [];
  finish = "tool_calls";
}

calls_run : parse_glm_tool_output wire ids generated "stop" reader ≡ some (ok released)
unfolding parse_glm_tool_output is_blank trimmed skip_space at lookup insert cut_prefix trim_suffix
    sprint
calls_run = refl

parse_glm_tool_output-ends_example :
    (r : Result Turn) × (parse_glm_tool_output wire ids generated "stop" reader ≡ some r)
parse_glm_tool_output-ends_example = parse_glm_tool_output-ends wire ids generated "stop" reader

parse_glm_tool_output-IsReleased_example : IsReleased "stop" reader released
parse_glm_tool_output-IsReleased_example =
    parse_glm_tool_output-IsReleased wire ids reader generated "stop" released calls_run

abbrev messages_of : Result (List Json) → List Json
messages_of (ok vs) = vs
messages_of _ = []

abbrev joined_messages : List Json
joined_messages = messages_of (normalize_tool_text parts)

parts_run : normalize_tool_text parts ≡ ok joined_messages
unfolding normalize_tool_text at lookup insert sprint
parts_run = refl

normalize_tool_text-AreNormal_example : AreNormal parts joined_messages
normalize_tool_text-AreNormal_example =
    normalize_tool_text-AreNormal parts joined_messages parts_run
