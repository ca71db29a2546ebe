-- ===== src/Chat/Budget/Fits.antt =====
-- What an admitted chat request may cost.
use strix_halo_cluster_glm.Base.{
  String, List, ◌≡◌, refl, sym, ap, subst, ◌∙◌, ℕ, ◌+◌, ◌-◌, ◌≤◌, ◌<◌, arith, Bool, true, false,
  not, Option, none, some, Result, ok, err, leb, ltb, if◌then◌else◌, lookup, lookup-insert,
  sprintf_d, ok-injective, >>=-eq-ok, refuse->>-eq-ok,
}
use strix_halo_cluster_glm.Base.Integer.{ℤ, pos, negsuc}
use strix_halo_cluster_glm.Json.{Json, null, boolean, number, text, array, object, Map, at, is_null}
use strix_halo_cluster_glm.Chat.Request.{Wire, string_value}
use strix_halo_cluster_glm.Chat.Budget.{
  ChatSettings, Tokenized, checked_count, measured_prompt, fitted, admit_chat, budget_fits,
  counted_by, in_range, whole_number, chosen_output, output_of, budget_of, context_of, reasoning_of,
  is_unknown_model, prepare_chat,
}
use strix_halo_cluster_glm.Chat.Limits.{ChatConfig, max_output_tokens, default_output_tokens}

in_range-bounds :
    (name : String) (lo hi n : ℕ) (x : Option ℤ)
    → in_range name lo hi x ≡ ok n
    → (lo ≤ n) × (n ≤ hi)
in_range-bounds name lo hi n (some (pos m)) h = (ground (arith, h), ground (arith, h))
in_range-bounds name lo hi n (some (negsuc m)) h = cc
in_range-bounds name lo hi n none h = cc

whole_number-bounds :
    (w : Wire) (v : Json) (name : String) (lo hi n : ℕ)
    → whole_number w v name lo hi ≡ ok n
    → (lo ≤ n) × (n ≤ hi)
unfolding whole_number
whole_number-bounds w (number t) name lo hi n h = in_range-bounds name lo hi n (w.whole t) h
whole_number-bounds w null name lo hi n h = cc
whole_number-bounds w (boolean b) name lo hi n h = cc
whole_number-bounds w (text s) name lo hi n h = cc
whole_number-bounds w (array vs) name lo hi n h = cc
whole_number-bounds w (object ms) name lo hi n h = cc

module _ (w : Wire) (cfg : ChatConfig) where
  max_output_tokens-le : 1 ≤ max_output_tokens cfg
  unfolding max_output_tokens
  max_output_tokens-le = ground arith

  default_output_tokens-bounds :
      (1 ≤ default_output_tokens cfg) × (default_output_tokens cfg ≤ max_output_tokens cfg)
  unfolding default_output_tokens
  default_output_tokens-bounds =
      (ground (arith, max_output_tokens-le), ground (arith, max_output_tokens-le))

  chosen_output-bounds :
      (v : Json) (b : Bool) (x : ℕ × Bool)
      → chosen_output w cfg (max_output_tokens cfg) v b ≡ ok x
      → (1 ≤ x.0) × (x.0 ≤ max_output_tokens cfg)
  unfolding chosen_output
  chosen_output-bounds v true x h =
      let same = ap (λ z. z.0) (ok-injective h) in
      let (one, most) = default_output_tokens-bounds in
      (ground (arith, same, one), ground (arith, same, most))
  chosen_output-bounds v false x h =
      let (n, counted, rest) =
        >>=-eq-ok (whole_number w v "max_tokens" 1 (max_output_tokens cfg)) _ h in
      let (one, most) = whole_number-bounds w v "max_tokens" 1 (max_output_tokens cfg) n counted in
      let same = ap (λ z. z.0) (ok-injective rest) in
      (ground (arith, same, one), ground (arith, same, most))

  -- What `prepareChat` leaves to the engine.
  pub record IsPrepared (p : Map) (s : ChatSettings) : Type 0 where
    pub one : 1 ≤ s.output
    pub most : s.output ≤ max_output_tokens cfg
    pub budget :
        (v : Json)
        → lookup "thinking_token_budget" p ≡ some v
        → (cfg.thinking_budget ≡ true)
          × ((n : ℕ) × (whole_number w v "thinking_token_budget" 0 (s.output - 1) ≡ ok n)
              × (n < s.output))

  output_of-bounds :
      (p : Map) (x : ℕ × Bool)
      → output_of w cfg p ≡ ok x
      → (1 ≤ x.0) × (x.0 ≤ max_output_tokens cfg)
  unfolding output_of
  output_of-bounds p x h =
      let (_, rest) =
        refuse->>-eq-ok _ _
          (chosen_output w cfg (max_output_tokens cfg)
            (if is_null (at "max_tokens" p)
              then at "max_completion_tokens" p
              else at "max_tokens" p)
            _)
          h in
      chosen_output-bounds _ _ x rest

  budget_of-bounds :
      (output : ℕ) (p p' : Map) (found : Option Json)
      → 1 ≤ output
      → budget_of w cfg output p found ≡ ok p'
      → (v : Json) → found ≡ some v
      → (cfg.thinking_budget ≡ true)
        × ((n : ℕ) × (whole_number w v "thinking_token_budget" 0 (output - 1) ≡ ok n)
            × (n < output))
  budget_of-bounds output p p' none one h v e = cc
  budget_of-bounds output p p' (some v') one h v e =
      let (supported, rest) = refuse->>-eq-ok (not cfg.thinking_budget) _ _ h in
      let (n, counted, _) =
        >>=-eq-ok (whole_number w v' "thinking_token_budget" 0 (output - 1)) _ rest in
      let (_, most) = whole_number-bounds w v' "thinking_token_budget" 0 (output - 1) n counted in
      let same : v' ≡ v = cc in
      (
        ground (arith, supported),
        (
          n,
          ap (λ v. whole_number w v "thinking_token_budget" 0 (output - 1)) (sym same) ∙ counted,
          omega (arith, most, one),
        ),
      )

  checked_count-bound :
      (tokens ts : List ℤ) (c m : ℤ) (n limit : ℕ)
      → checked_count tokens c m ≡ ok (n, limit, ts)
      → 1 ≤ n
  checked_count-bound tokens ts (pos c) (pos m) n limit h = ground (arith, h)
  checked_count-bound tokens ts (pos c) (negsuc m) n limit h = cc
  checked_count-bound tokens ts (negsuc c) (pos m) n limit h = cc
  checked_count-bound tokens ts (negsuc c) (negsuc m) n limit h = cc

  measured_prompt-Keeps :
      (p : Map) (s s' : ChatSettings) (answer : Option (Result Tokenized))
      → measured_prompt w p s answer ≡ ok s'
      → (s'.output ≡ s.output) × (s'.context ≤ s.context) × (1 ≤ s'.prompt)
  unfolding measured_prompt
  measured_prompt-Keeps p s s' none h =
      let same = ok-injective h in
      (
        ap (λ z. z.output) (sym same),
        ground (arith, ap (λ z. z.context) same),
        ground (arith, ap (λ z. z.prompt) same),
      )
  measured_prompt-Keeps p s s' (some (err e)) h = cc
  measured_prompt-Keeps p s s' (some (ok t)) h = go (checked_count t.tokens t.count t.max) refl h
    where
      go :
          (r : Result (ℕ × ℕ × List ℤ))
          → checked_count t.tokens t.count t.max ≡ r
          → counted_by s r ≡ ok s'
          → (s'.output ≡ s.output) × (s'.context ≤ s.context) × (1 ≤ s'.prompt)
      go (err e) c h = cc
      go (ok (n, limit, ts)) c h =
          let same = ok-injective h in
          let one = checked_count-bound t.tokens ts t.count t.max n limit c in
          (
            ap (λ z. z.output) (sym same),
            ground (arith, ap (λ z. z.context) same),
            ground (arith, ap (λ z. z.prompt) same, one),
          )

  prepare_chat-IsPrepared :
      (p p' : Map) (s : ChatSettings) → prepare_chat w cfg p ≡ ok (p', s) → IsPrepared p s
  unfolding prepare_chat
  prepare_chat-IsPrepared p p' s h =
      let (reasoning, _, h₁) = >>=-eq-ok (reasoning_of cfg p) _ h in
      let (context, _, h₂) = >>=-eq-ok (context_of w cfg (lookup "context_tokens" p)) _ h₁ in
      let (output, chosen, h₃) = >>=-eq-ok (output_of w cfg p) _ h₂ in
      let (p₁, budgeted, h₄) =
        >>=-eq-ok (budget_of w cfg output.0 p (lookup "thinking_token_budget" p)) _ h₃ in
      let (_, h₅) = refuse->>-eq-ok (is_unknown_model cfg (string_value (at "model" p₁))) _ _ h₄ in
      let (one, most) = output_of-bounds p output chosen in
      let same = ap (λ z. z.1) (ok-injective h₅) in
      subst (IsPrepared p) same (record {
        one = one;
        most = most;
        budget = budget_of-bounds output.0 p p₁ (lookup "thinking_token_budget" p) one budgeted;
      })

  -- What an admitted request may cost, and what the engine is told of it.
  pub record Fits (p : Map) (s : ChatSettings) : Type 0 where
    pub some_prompt : 1 ≤ s.prompt
    pub some_output : 1 ≤ s.output
    pub most : s.output ≤ max_output_tokens cfg
    pub window : s.prompt + s.output ≤ s.context
    pub told : lookup "max_tokens" p ≡ some (number (sprintf_d (pos s.output)))

  admit_chat-Fits :
      (answer : Option (Result Tokenized)) (p p' : Map) (s s' : ChatSettings)
      → 1 ≤ s.output
      → s.output ≤ max_output_tokens cfg
      → admit_chat w cfg answer p s ≡ ok (p', s')
      → Fits p' s' × (s'.output ≤ s.output) × (s'.context ≤ s.context)
  unfolding admit_chat
  admit_chat-Fits answer p p' s s' one most h =
      let (m, counted, h₁) = >>=-eq-ok (measured_prompt w p s answer) _ h in
      let (output, window, prompt) = measured_prompt-Keeps p s m answer counted in
      let (room, h₂) = refuse->>-eq-ok (leb m.context m.prompt) _ _ h₁ in
      let (fits, h₃) = refuse->>-eq-ok (ltb (m.context - m.prompt) (fitted m)) _ _ h₂ in
      let (_, h₄) =
        refuse->>-eq-ok (not (budget_fits w cfg (fitted m) (lookup "thinking_token_budget" p))) _ _
          h₃ in
      let same = ok-injective h₄ in
      let prompt_is = ap (λ z. z.1.prompt) same in
      let output_is = ap (λ z. z.1.output) same in
      let context_is = ap (λ z. z.1.context) same in
      (
        record {
          some_prompt = ground (arith, prompt, prompt_is);
          some_output = ground (arith, output_is, one, output, room);
          most = ground (arith, output_is, most, output);
          window = ground (arith, prompt_is, output_is, context_is, room, fits);
          told =
              ap (λ z. lookup "max_tokens" z.0) (sym same)
              ∙ lookup-insert "max_tokens" "max_tokens" _ p
              ∙ ap (λ n. some (number (sprintf_d (pos n)))) output_is;
        },
        ground (arith, output_is, output),
        ground (arith, context_is, window),
      )

  -- A request that is prepared and then admitted has at least one token of output, at most what the
  -- deployment allows and at most what was prepared; prompt and output together fit into a context
  -- that is no larger than the prepared one; the engine is told this very output; and a thinking
  -- budget that was given is a supported one and less than the prepared output.
  pub admit_chat-prepare_chat :
      (answer : Option (Result Tokenized)) (p p₁ p₂ : Map) (s₁ s₂ : ChatSettings)
      → prepare_chat w cfg p ≡ ok (p₁, s₁)
      → admit_chat w cfg answer p₁ s₁ ≡ ok (p₂, s₂)
      → Fits p₂ s₂ × (s₂.output ≤ s₁.output) × (s₂.context ≤ s₁.context) × IsPrepared p s₁
  admit_chat-prepare_chat answer p p₁ p₂ s₁ s₂ prepares admits =
      let ready = prepare_chat-IsPrepared p p₁ s₁ prepares in
      let (fits, output, context) =
        admit_chat-Fits answer p₁ p₂ s₁ s₂ ready.one ready.most admits in
      (fits, output, context, ready)
