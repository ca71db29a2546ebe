-- ===== src/Chat/Calls/Declared.antt =====
-- Which tool calls of a generated text are released.
use strix_halo_cluster_glm.Base.{
  String, List, [], ◌∷◌, ◌++◌, ℕ, zero, suc, ◌≤◌, arith, ◌≡◌, ◌≢◌, refl, sym, ap, subst, ◌∙◌, Bool,
  true, false, ◌&&◌, Option, none, some, Result, ok, err, ◌==◌, eq_iff, ltb, if_cases, length,
  lookup, cut_prefix, All, All-append,
}
use strix_halo_cluster_glm.Json.{Map, at}
use strix_halo_cluster_glm.Chat.Request.{Wire, as_object, is_false}
use strix_halo_cluster_glm.Chat.Text.{cut_text}
use strix_halo_cluster_glm.Chat.Text.Shorter.{size}
use strix_halo_cluster_glm.Chat.Calls.{
  ToolCall, Generated, Turn, head_of, finished_call, defined_call, tool_call, has_required,
  with_call, in_block, at_call, tool_calls, definitions, with_calls, or_same, segments, told,
  in_segments, parse_glm_tool_output,
}

-- The tool of a call is one that the request declares.
abbrev pub IsDeclared : List (String × Map) → ToolCall → Type 0
IsDeclared defs c = lookup c.name defs ≢ none

-- What holds of the calls of a released message.
pub record IsReleased (finish : String) (p : Map) (t : Turn) : Type 0 where
  pub ended : t.calls ≢ [] → (finish ≡ "stop") × (t.finish ≡ "tool_calls")
  pub each : All (IsDeclared (definitions p)) t.calls
  pub limit : length t.calls ≤ 32
  pub single : is_false (at "parallel_tool_calls" p) ≡ true → length t.calls ≤ 1

some-ok-injective : {A : Type 0} {a b : A} → some (ok a) ≡ some (ok b) → a ≡ b
some-ok-injective e = cc

module _ (w : Wire) (defs : List (String × Map)) (ids : ℕ → String) where
  tool_call-IsDeclared :
      (id block : String) (c : ToolCall)
      → tool_call w defs id block ≡ some (ok c)
      → IsDeclared defs c
  unfolding tool_call
  tool_call-IsDeclared id block c h = on (head_of block (cut_text "<arg_key>" block)) h
    where
      named :
          (name : String) (schema : Map) (x : Option (Result Map))
          → lookup name defs ≢ none
          → finished_call w id name schema x ≡ some (ok c)
          → IsDeclared defs c
      named name schema none found e = cc
      named name schema (some (err x)) found e = cc
      named name schema (some (ok args)) found e =
          if_cases (λ (x : Option (Result ToolCall)). x ≡ some (ok c) → IsDeclared defs c)
            (has_required schema args) _ _
            (λ _ e. subst (IsDeclared defs) (some-ok-injective e) found) (λ _ e. cc) e

      defined :
          (name raw : String) (d : Option Map)
          → lookup name defs ≡ d
          → defined_call w id name raw d ≡ some (ok c)
          → IsDeclared defs c
      defined name raw none found e = cc
      defined name raw (some def) found e =
          named name (as_object (at "parameters" def)) _ (λ missing. cc) e

      on :
          (x : String × String)
          → defined_call w id x.0 x.1 (lookup x.0 defs) ≡ some (ok c)
          → IsDeclared defs c
      on (name, raw) e = defined name raw (lookup name defs) refl e

  Kept : Generated → Type 0
  Kept g = All (IsDeclared defs) g.calls × (length g.calls ≤ 32)

  with_call-Kept :
      (g g' : Generated) (before : String) (x : Option (Result ToolCall))
      (next : Generated → Option (Result Generated))
      → ((c : ToolCall) → x ≡ some (ok c) → IsDeclared defs c)
      → ((g₁ : Generated) → Kept g₁ → next g₁ ≡ some (ok g') → Kept g')
      → Kept g
      → with_call g before x next ≡ some (ok g')
      → Kept g'
  unfolding Kept
  with_call-Kept g g' before none next known f kept e = cc
  with_call-Kept g g' before (some (err x)) next known f kept e = cc
  with_call-Kept g g' before (some (ok c)) next known f kept e =
      if_cases (λ (x : Option (Result Generated)). x ≡ some (ok g') → Kept g')
        (ltb 32 (length (g.calls ++ c ∷ []))) _ _ (λ _ e. cc)
        (λ room e.
          f _
            (
              All-append (IsDeclared defs) g.calls (c ∷ []) kept.0 (known c refl, tt),
              ground (arith, room),
            )
            e)
        e

  tool_calls-Kept :
      (n : ℕ) (content : String) (g g' : Generated)
      → Kept g
      → tool_calls w defs ids n content g ≡ some (ok g')
      → Kept g'
  unfolding tool_calls Kept
  tool_calls-Kept zero content g g' kept h = cc
  tool_calls-Kept (suc n) content g g' kept h =
      opened (cut_text "<tool_call>" content)
        (λ behind g₁ kept₁ e. tool_calls-Kept n behind g₁ g' kept₁ e) h
    where
      Later : Type 0
      Later =
          (behind : String) (g₁ : Generated)
          → Kept g₁
          → tool_calls w defs ids n behind g₁ ≡ some (ok g')
          → Kept g'

      closed :
          (before : String) (x : Option (String × String))
          → Later
          → in_block w defs ids g before x (tool_calls w defs ids n) ≡ some (ok g')
          → Kept g'
      closed before none f e = cc
      closed before (some (block, rest)) f e =
          with_call-Kept g g' before (tool_call w defs (ids (length g.calls)) block)
            (tool_calls w defs ids n rest)
            (λ c called. tool_call-IsDeclared (ids (length g.calls)) block c called) (f rest) kept e

      opened :
          (x : Option (String × String))
          → Later
          → at_call w defs ids g content x (tool_calls w defs ids n) ≡ some (ok g')
          → Kept g'
      opened none f e =
          let same = some-ok-injective e in
          (
            subst (All (IsDeclared defs)) (ap (λ z. z.calls) same) kept.0,
            ground (arith, kept.1, ap (λ z. length z.calls) same),
          )
      opened (some (before, behind)) f e = closed before (cut_text "</tool_call>" behind) f e

module _ (w : Wire) (ids : ℕ → String) (p : Map) where
  -- A message with no calls is released whatever it ended with.
  plain-IsReleased :
      (finish : String) (t t' : Turn)
      → t'.calls ≡ []
      → some (ok t') ≡ some (ok t)
      → IsReleased finish p t
  plain-IsReleased finish t t' bare e =
      let none_left : t.calls ≡ [] = ap (λ z. z.calls) (sym (some-ok-injective e)) ∙ bare in
      record {
        ended = λ given. absurd (given none_left);
        each = subst (All (IsDeclared (definitions p))) (sym none_left) tt;
        limit = ground (arith, ap length none_left);
        single = λ _. ground (arith, ap length none_left);
      }

  -- Tool calls are released only from a text that ended with stop, under the finish reason tool_calls,
  -- at most 32 of them, at most one where parallel calls are refused, and each of them for a tool that
  -- the request declares.
  pub parse_glm_tool_output-IsReleased :
      (raw finish : String) (t : Turn)
      → parse_glm_tool_output w ids raw finish p ≡ some (ok t)
      → IsReleased finish p t
  unfolding parse_glm_tool_output Kept
  parse_glm_tool_output-IsReleased raw finish t h =
      let out = or_same raw (cut_prefix "<think>" raw) in
      on (segments finish out (cut_text "</think>" out)) h
    where
      collected :
          (reasoning : String) (x : Option (Result Generated))
          → finish ≡ "stop"
          → ((g : Generated) → x ≡ some (ok g) → Kept w (definitions p) ids g)
          → with_calls p reasoning x ≡ some (ok t)
          → IsReleased finish p t
      collected reasoning none stop f e = cc
      collected reasoning (some (err x)) stop f e = cc
      collected reasoning (some (ok g)) stop f e =
          if_cases (λ (x : Option (Result Turn)). x ≡ some (ok t) → IsReleased finish p t)
            (is_false (at "parallel_tool_calls" p) && ltb 1 (length g.calls)) _ _ (λ _ e. cc)
            (λ alone e.
              let same = some-ok-injective e in
              let (each, limit) = f g refl in
              subst (IsReleased finish p) same (record {
                ended = λ _. (stop, refl);
                each = each;
                limit = limit;
                single = λ one. ground (arith, alone, one);
              }))
            e

      stopped :
          (reasoning content : String) (b : Bool)
          → (finish == "stop") ≡ b
          → elim b as (λ _. Option (Result Turn)) [
            | false ↦
                some
                  (ok (record { content = ""; reasoning = reasoning; calls = []; finish = finish }))
            | true ↦ with_calls p reasoning (
                tool_calls w
                  (definitions p)
                  ids
                  (suc (size content))
                  content
                  (record { prose = ""; calls = [] }))
          ]
            ≡ some (ok t)
          → IsReleased finish p t
      stopped reasoning content false test e = plain-IsReleased finish t _ refl e
      stopped reasoning content true test e =
          collected reasoning _ ((eq_iff finish "stop").0 test)
            (λ g run.
              tool_calls-Kept w (definitions p) ids (suc (size content)) content _ g
                (tt, omega arith) run)
            e

      said :
          (reasoning content : String) (x : Option (String × String))
          → told w ids finish p reasoning content x ≡ some (ok t)
          → IsReleased finish p t
      said reasoning content none e = plain-IsReleased finish t _ refl e
      said reasoning content (some cut) e = stopped reasoning content (finish == "stop") refl e

      on :
          (r : Result (String × String))
          → in_segments w ids finish p r ≡ some (ok t)
          → IsReleased finish p t
      on (err x) e = cc
      on (ok (reasoning, content)) e = said reasoning content (cut_text "<tool_call>" content) e
