-- ===== src/Chat/Samples.antt =====
-- A small codec and a configuration for tests, and a request whose transcript has one answered call.
use strix_halo_cluster_glm.Base.{
  String, List, [], ◌∷◌, true, ok, err, ◌==◌, if◌then◌else◌, parse_int,
}
use strix_halo_cluster_glm.Base.Integer.{pos}
use strix_halo_cluster_glm.Json.{
  Json, null, number, text, array, object, Map, no_member, from_members, from_values,
}
use strix_halo_cluster_glm.Chat.Request.{Wire}
use strix_halo_cluster_glm.Chat.Budget.{Tokenized}
use strix_halo_cluster_glm.Chat.Limits.{ChatConfig}

abbrev pub wire : Wire
wire = record {
  decode = λ s. if s == "{}" then ok (object no_member) else err "invalid character";
  encode = λ v. "{}";
  encoded_length = λ v. 9;
  whole = parse_int;
  at_most = λ a b. true;
  integral = λ t. true;
}

abbrev pub chat_config : ChatConfig
chat_config = record {
  model = "glm";
  profiles =
      (
        "fast",
        record {
          reasoning = "low";
          context_tokens = pos 4096;
          max_tokens = pos 2048;
          max_repairs = pos 1;
        },
      )
      ∷ [];
  default_profile = "fast";
  preferred = "";
  max_context_tokens = pos 65536;
  reasoning_modes = [];
  thinking_budget = true;
  chat_max_output = 0;
  chat_context_tokens = 0;
  chat_default_output = 0;
}

abbrev obj : Map → Json
obj m = object (from_members m)

abbrev call : Json
call = obj (
    ("id", text "c1")
    ∷ ("type", text "function")
    ∷ ("function", obj (("name", text "read") ∷ ("arguments", text "{}") ∷ []))
    ∷ [])

abbrev messages : List Json
messages =
    obj (("role", text "user") ∷ ("content", text "hi") ∷ [])
    ∷ obj (
        ("role", text "assistant")
        ∷ ("content", null)
        ∷ ("tool_calls", array (from_values (call ∷ [])))
        ∷ [])
    ∷ obj (("role", text "tool") ∷ ("content", text "x") ∷ ("tool_call_id", text "c1") ∷ [])
    ∷ []

abbrev pub request : Map
request =
    ("messages", array (from_values messages))
    ∷ ("max_tokens", number "100")
    ∷ ("thinking_token_budget", number "50")
    ∷ []

abbrev pub counted : Tokenized
counted = record { count = pos 2; max = pos 4096; tokens = pos 5 ∷ pos 6 ∷ [] }

abbrev pub reader : Map
reader =
    (
      "tools",
      array (
          from_values (
            obj (
              ("type", text "function")
              ∷ (
                "function",
                obj (
                    ("name", text "read")
                    ∷ ("parameters", obj (("type", text "object") ∷ []))
                    ∷ []),
              )
              ∷ [])
            ∷ [])),
    )
    ∷ []

abbrev pub generated : String
generated =
    "<think></think>Look. <tool_call>read<arg_key>path</arg_key><arg_value>a.go</arg_value></tool_call>"

abbrev pub parts : List Json
parts =
    obj (
      ("role", text "user")
      ∷ (
        "content",
        array (from_values (obj (("type", text "text") ∷ ("text", text "hi") ∷ []) ∷ [])),
      )
      ∷ [])
    ∷ []
