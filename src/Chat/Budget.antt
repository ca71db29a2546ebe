-- ===== src/Chat/Budget.antt =====
-- options.go: from the controls of a chat request to what the engine is told. The configuration's
-- limits and the counts of tokens are never negative once loadConfig and tokenizePrompt have checked
-- them.
pub mod Fits
use strix_halo_cluster_glm.Base.{
  String, List, [], ◌∷◌, ℕ, ◌+◌, ◌-◌, min, Bool, true, false, not, ◌&&◌, ◌||◌, Option, none, some,
  Result, ok, err, refuse, ◌>>=◌, ◌>>◌, ◌==◌, eqb, leb, ltb, if◌then◌else◌, any, lookup, insert,
  length, sprint, sprintf_d,
}
use strix_halo_cluster_glm.Base.Integer.{ℤ, pos, negsuc, int_eq}
use strix_halo_cluster_glm.Json.{
  Json, null, boolean, number, text, array, object, Map, at, is_null, values, from_members,
}
use strix_halo_cluster_glm.Chat.Request.{Wire, as_object, string_value, is_boolean, is_true, int_le}
use strix_halo_cluster_glm.Chat.Validation.{
  supported_reasoning, max_chat_output, safe_engine_context,
}
use strix_halo_cluster_glm.Chat.Limits.{
  ChatConfig, Profile, chat_context_tokens, default_chat_output, default_output_tokens,
  max_output_tokens, modes_or, named_profile, no_profile, or_no_profile, resolve_profile,
  selected_profile, supports_reasoning,
}

abbrev out_of_range : String → ℕ → ℕ → String
out_of_range name lo hi =
    sprint (name ∷ " must be in " ∷ sprintf_d (pos lo) ∷ ".." ∷ sprintf_d (pos hi) ∷ [])

abbrev pub in_range : String → ℕ → ℕ → Option ℤ → Result ℕ
in_range name lo hi (some (pos n)) =
    if leb lo n && leb n hi then ok n else err (out_of_range name lo hi)
in_range name lo hi _ = err (out_of_range name lo hi)

-- wholeNumber; no caller has a negative bound.
unfoldable pub whole_number : Wire → Json → String → ℕ → ℕ → Result ℕ
whole_number w (number t) name lo hi = in_range name lo hi (w.whole t)
whole_number w _ name lo hi = err (sprint (name ∷ " must be an integer" ∷ []))

pub record ChatSettings : Type 0 where
  pub reasoning : String
  pub context : ℕ
  pub output : ℕ
  pub prompt : ℕ
  pub automatic : Bool
  pub count_source : String
  pub token_ids : List ℤ

-- `delete(p, key)`
unfoldable pub delete_key : String → Map → Map
delete_key key [] = []
delete_key key (e ∷ m) = let rest = delete_key key m in if e.0 == key then rest else e ∷ rest

-- The level that the request asks for: its own, then that of the template, then that of the profile.
abbrev chosen_reasoning : String → String → String → String
chosen_reasoning top nested profile =
    if not (top == "") then top else if not (nested == "") then nested else profile

unfoldable pub template_controls : Map → Result (Unit {0})
template_controls [] = ok tt
template_controls (e ∷ m) = do
  refuse (e.0 == "clear_thinking" && not (is_boolean e.1)) "clear_thinking must be boolean"
  refuse (not (e.0 == "clear_thinking") && not (e.0 == "reasoning_effort"))
      "unsupported template control; refusing a silently ignored setting"
  template_controls m

-- The context of the request.
abbrev pub context_of : Wire → ChatConfig → Option Json → Result ℕ
context_of w cfg none = ok (chat_context_tokens cfg)
context_of w cfg (some v) = whole_number w v "context_tokens" 256 safe_engine_context

abbrev same_count : Result ℕ → Result ℕ → Bool
same_count (ok a) (ok b) = eqb a b
same_count a b = false

unfoldable pub chosen_output : Wire → ChatConfig → ℕ → Json → Bool → Result (ℕ × Bool)
unfolding whole_number default_output_tokens
chosen_output w cfg most v true = ok (default_output_tokens cfg, true)
chosen_output w cfg most v false = whole_number w v "max_tokens" 1 most >>= λ n. ok (n, false)

-- The output of the request, and whether the gateway chose it.
unfoldable pub output_of : Wire → ChatConfig → Map → Result (ℕ × Bool)
unfolding chosen_output at
output_of w cfg p = do
  let older = at "max_tokens" p
  let newer = at "max_completion_tokens" p
  let most = max_output_tokens cfg
  refuse
      (not (is_null older)
        && not (is_null newer)
        && not (
            same_count (whole_number w older "max_tokens" 1 most)
              (whole_number w newer "max_completion_tokens" 1 most)))
      "conflicting or invalid max_tokens/max_completion_tokens"
  let output = if is_null older then newer else older
  chosen_output w cfg most output (is_null output)

-- The request with its thinking budget as a checked integer.
abbrev pub budget_of : Wire → ChatConfig → ℕ → Map → Option Json → Result Map
budget_of w cfg output p none = ok p
budget_of w cfg output p (some v) = do
  refuse (not cfg.thinking_budget) "thinking_token_budget is not verified for the running backend"
  n ← whole_number w v "thinking_token_budget" 0 (output - 1)
  ok (insert "thinking_token_budget" (number (sprintf_d (pos n))) p)

abbrev default_to : String → Json → Map → Map
default_to key v p = if is_null (at key p) then insert key v p else p

abbrev stream_usage : Map → Map
stream_usage p =
    if is_true (at "stream" p)
    then insert "stream_options"
        (object (
          from_members (
            insert "continuous_usage_stats" (boolean true)
              (insert "include_usage" (boolean true) (as_object (at "stream_options" p))))))
        p
    else p

-- The request as it goes on.
unfoldable pub prepared : ChatConfig → String → Map → Map → Map
unfolding delete_key at
prepared cfg reasoning kwargs p =
    let bare =
      delete_key "max_completion_tokens" (delete_key "context_tokens" (delete_key "profile" p)) in
    let named =
      insert "chat_template_kwargs"
        (object (from_members (insert "reasoning_effort" (text reasoning) kwargs)))
        (insert "reasoning_effort" (text reasoning) (insert "model" (text cfg.model) bare)) in
    stream_usage (default_to "temperature" (number "0") (default_to "seed" (number "1") named))

-- The reasoning level, and the checks up to those of the limits.
unfoldable pub reasoning_of : ChatConfig → Map → Result String
unfolding resolve_profile supports_reasoning template_controls at
reasoning_of cfg p = do
  let name = string_value (at "profile" p)
  profile ← resolve_profile cfg (if name == "" then selected_profile cfg else name)
  let kwargs = as_object (at "chat_template_kwargs" p)
  let top = string_value (at "reasoning_effort" p)
  let nested = string_value (at "reasoning_effort" kwargs)
  refuse (not (top == "") && not (nested == "") && not (top == nested))
      "conflicting reasoning_effort and chat_template_kwargs.reasoning_effort"
  let reasoning = chosen_reasoning top nested profile.reasoning
  refuse (not (supports_reasoning cfg reasoning)) "unsupported reasoning_effort for this deployment"
  template_controls kwargs
  refuse
      (not (is_null (at "chat_template" p))
        || not (is_null (at "continue_final_message" p))
        || not (is_null (at "add_generation_prompt" p)))
      "custom template/prefill controls are not supported by this gateway"
  ok reasoning

abbrev pub is_unknown_model : ChatConfig → String → Bool
is_unknown_model cfg model = not (model == "") && not (model == cfg.model)

abbrev pub settings : String → ℕ → ℕ × Bool → ChatSettings
settings reasoning context (output, automatic) = record {
  reasoning = reasoning;
  context = context;
  output = output;
  prompt = 0;
  automatic = automatic;
  count_source = "";
  token_ids = [];
}

-- prepareChat
unfoldable pub prepare_chat : Wire → ChatConfig → Map → Result (Map × ChatSettings)
unfolding reasoning_of output_of prepared chat_context_tokens
prepare_chat w cfg p = do
  reasoning ← reasoning_of cfg p
  context ← context_of w cfg (lookup "context_tokens" p)
  output ← output_of w cfg p
  p' ← budget_of w cfg output.0 p (lookup "thinking_token_budget" p)
  refuse (is_unknown_model cfg (string_value (at "model" p'))) "unknown model"
  ok (
    prepared cfg reasoning (as_object (at "chat_template_kwargs" p)) p',
    settings reasoning context output,
  )

-- The decoded answer of the tokenizer.
pub record Tokenized : Type 0 where
  pub count : ℤ
  pub max : ℤ
  pub tokens : List ℤ

abbrev pub checked_count : List ℤ → ℤ → ℤ → Result (ℕ × ℕ × List ℤ)
checked_count tokens (pos n) (pos limit) = do
  refuse (eqb n 0 || not (eqb n (length tokens)) || eqb limit 0) "invalid runtime token count"
  ok (n, limit, tokens)
checked_count tokens n limit = err "invalid runtime token count"

abbrev preflight_error : String → String
preflight_error e = sprint ("tokenizer preflight unavailable; no inference dispatched: " ∷ e ∷ [])

abbrev counted_by : ChatSettings → Result (ℕ × ℕ × List ℤ) → Result ChatSettings
counted_by s (err e) = err (preflight_error e)
counted_by s (ok (n, limit, tokens)) = ok (record s {
  prompt = n;
  token_ids = tokens;
  count_source = "runtime tokenizer";
  context = min s.context limit;
})

abbrev tokenized : Result Tokenized → Result (ℕ × ℕ × List ℤ)
tokenized (err e) = err e
tokenized (ok t) = checked_count t.tokens t.count t.max

-- The settings with the prompt measured, by the tokenizer where one is configured.
unfoldable pub measured_prompt :
    Wire → Map → ChatSettings → Option (Result Tokenized) → Result ChatSettings
unfolding at
measured_prompt w p s (some answer) = counted_by s (tokenized answer)
measured_prompt w p s none = ok (record s {
  prompt = w.encoded_length (at "messages" p) + 256;
  count_source = "conservative byte guard; tokenizer unavailable";
})

abbrev budget_fits : Wire → ChatConfig → ℕ → Option Json → Bool
budget_fits w cfg output none = true
budget_fits w cfg output (some v) =
    elim (whole_number w v "thinking_token_budget" 0 (max_output_tokens cfg)) [
      | ok n ↦ ltb n output
      | err e ↦ ltb 0 output
    ]

-- The output that is left by the prompt, where the gateway chooses it.
abbrev pub fitted : ChatSettings → ℕ
fitted s = if s.automatic then min s.output (s.context - s.prompt) else s.output

-- admitChat; the context behind the prompt is less than one where the prompt fills it.
unfoldable pub admit_chat :
    Wire → ChatConfig → Option (Result Tokenized) → Map → ChatSettings → Result (Map × ChatSettings)
unfolding measured_prompt
admit_chat w cfg answer p s = do
  s₁ ← measured_prompt w p s answer
  refuse (leb s₁.context s₁.prompt) "prompt exceeds request context; no inference dispatched"
  refuse (ltb (s₁.context - s₁.prompt) (fitted s₁))
      "prompt + output exceeds context; select a larger window or lower output"
  refuse (not (budget_fits w cfg (fitted s₁) (lookup "thinking_token_budget" p)))
      "thinking budget leaves no room for final output in this context"
  ok (
    insert "max_tokens" (number (sprintf_d (pos (fitted s₁)))) p,
    record s₁ { output = fitted s₁ },
  )
