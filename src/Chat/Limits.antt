-- ===== src/Chat/Limits.antt =====
-- options.go, agent.go: the limits of the configuration, and the profile of a request.
use strix_halo_cluster_glm.Base.{
  String, List, [], ◌∷◌, ℕ, min, Bool, not, ◌||◌, Option, none, some, Result, ok, err, refuse,
  ◌>>=◌, ◌>>◌, ◌==◌, ltb, if◌then◌else◌, any, lookup,
}
use strix_halo_cluster_glm.Base.Integer.{ℤ, pos}
use strix_halo_cluster_glm.Chat.Request.{int_le}
use strix_halo_cluster_glm.Chat.Validation.{
  supported_reasoning, max_chat_output, safe_engine_context,
}

abbrev pub default_chat_output : ℕ
default_chat_output = 16384

pub record Profile : Type 0 where
  pub reasoning : String
  pub context_tokens : ℤ
  pub max_tokens : ℤ
  pub max_repairs : ℤ

-- The part of Config that a chat request is measured by, and the preferred profile.
pub record ChatConfig : Type 0 where
  pub model : String
  pub profiles : List (String × Profile)
  pub default_profile : String
  pub preferred : String
  pub max_context_tokens : ℤ
  pub reasoning_modes : List String
  pub thinking_budget : Bool
  pub chat_max_output : ℕ
  pub chat_context_tokens : ℕ
  pub chat_default_output : ℕ

abbrev pub modes_or : List String → List String
modes_or [] = "low" ∷ "high" ∷ "max" ∷ []
modes_or (m ∷ ms) = m ∷ ms

-- supportsReasoning
unfoldable pub supports_reasoning : ChatConfig → String → Bool
supports_reasoning cfg s = any (λ m. s == m) (modes_or cfg.reasoning_modes)

unfoldable pub max_output_tokens : ChatConfig → ℕ
max_output_tokens cfg = if ltb 0 cfg.chat_max_output then cfg.chat_max_output else max_chat_output

unfoldable pub chat_context_tokens : ChatConfig → ℕ
chat_context_tokens cfg =
    if ltb 0 cfg.chat_context_tokens then cfg.chat_context_tokens else safe_engine_context

unfoldable pub default_output_tokens : ChatConfig → ℕ
unfolding max_output_tokens
default_output_tokens cfg =
    if ltb 0 cfg.chat_default_output
    then min cfg.chat_default_output (max_output_tokens cfg)
    else min default_chat_output (max_output_tokens cfg)

-- selectedProfile
abbrev pub selected_profile : ChatConfig → String
selected_profile cfg = if cfg.preferred == "" then cfg.default_profile else cfg.preferred

abbrev pub no_profile : Profile
no_profile = record {
  reasoning = "";
  context_tokens = pos 0;
  max_tokens = pos 0;
  max_repairs = pos 0;
}

abbrev pub or_no_profile : Option Profile → Profile
or_no_profile none = no_profile
or_no_profile (some p) = p

abbrev pub named_profile : ChatConfig → String → Option Profile → Result Profile
named_profile cfg name (some p) = ok p
named_profile cfg name none =
    if supported_reasoning name
    then ok (record (or_no_profile (lookup cfg.default_profile cfg.profiles)) { reasoning = name })
    else err "unknown profile"

-- resolveProfile for a task that names nothing but a profile.
unfoldable pub resolve_profile : ChatConfig → String → Result Profile
unfolding max_output_tokens
resolve_profile cfg name = do
  let chosen = if name == "" then selected_profile cfg else name
  p ← named_profile cfg chosen (lookup chosen cfg.profiles)
  refuse
      (not (int_le (pos 256) p.context_tokens)
        || not (int_le p.context_tokens cfg.max_context_tokens)
        || not (int_le (pos 64) p.max_tokens)
        || not (int_le p.max_tokens (pos (max_output_tokens cfg)))
        || not (int_le (pos 0) p.max_repairs)
        || not (int_le p.max_repairs (pos 6)))
      "profile bounds: context256..configured max, output64..configured max, repairs0..6"
  ok p
