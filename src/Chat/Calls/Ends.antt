-- ===== src/Chat/Calls/Ends.antt =====
-- The fuel of the loops over a generated text is enough.
use strix_halo_cluster_glm.Base.{
  String, List, [], ◌∷◌, ◌++◌, ℕ, zero, suc, ◌<◌, arith, ◌≡◌, refl, Bool, true, false, ◌&&◌, Option,
  none, some, Result, ok, err, ◌==◌, ltb, if_cases, length, lookup, cut_prefix,
}
use strix_halo_cluster_glm.Json.{Map, at}
use strix_halo_cluster_glm.Chat.Request.{Wire, as_object, is_false}
use strix_halo_cluster_glm.Chat.Text.{cut_text, is_blank, trimmed, glm_argument}
use strix_halo_cluster_glm.Chat.Text.Shorter.{size, cut_text-size-lt, glm_argument-size-lt}
use strix_halo_cluster_glm.Chat.Calls.{
  ToolCall, Generated, Turn, argument, arguments, then_arguments, next_argument, head_of,
  finished_call, defined_call, tool_call, has_required, with_call, in_block, at_call, tool_calls,
  definitions, with_calls, or_same, segments, told, in_segments, parse_glm_tool_output,
}

-- The fuel did not run out.
abbrev Ended : {A : Type 0} → Option A → Type 0
Ended {A} x = (a : A) × (x ≡ some a)

module _ (w : Wire) where
  then_arguments-Ended :
      (r : Result Map) (next : Map → Option (Result Map))
      → ((m : Map) → Ended (next m))
      → Ended (then_arguments r next)
  then_arguments-Ended (err e) next f = (err e, refl)
  then_arguments-Ended (ok args) next f = f args

  arguments-Ended :
      (schema : Map) (n : ℕ) (raw : String) (args : Map)
      → size raw < n
      → Ended (arguments w schema n raw args)
  unfolding arguments
  arguments-Ended schema zero raw args h = absurd (omega (arith, h))
  arguments-Ended schema (suc n) raw args h =
      on (is_blank raw) (λ behind args' less. arguments-Ended schema n behind args' less)
    where
      next :
          (x : Option (String × String × String))
          → glm_argument raw ≡ x
          → ((behind : String) (args' : Map)
              → size behind < n
              → Ended (arguments w schema n behind args'))
          → Ended (next_argument w schema args x (arguments w schema n))
      next none found f = (err "malformed GLM47 argument delimiters", refl)
      next (some (key, value, behind)) found f =
          then_arguments-Ended (argument w schema args (trimmed key) value)
            (arguments w schema n behind)
            (λ args'.
              f behind args' (omega (arith, h, glm_argument-size-lt raw key value behind found)))

      on :
          (b : Bool)
          → ((behind : String) (args' : Map)
              → size behind < n
              → Ended (arguments w schema n behind args'))
          → Ended (elim b as (λ _. Option (Result Map)) [
            | true ↦ some (ok args)
            | false ↦ next_argument w schema args (glm_argument raw) (arguments w schema n)
          ])
      on true f = (ok args, refl)
      on false f = next (glm_argument raw) refl f

  finished_call-Ended :
      (id name : String) (schema : Map) (x : Option (Result Map))
      → Ended x
      → Ended (finished_call w id name schema x)
  finished_call-Ended id name schema none (r, e) = cc
  finished_call-Ended id name schema (some (err x)) e = (err x, refl)
  finished_call-Ended id name schema (some (ok args)) e =
      if_cases Ended (has_required schema args) _ _ (λ _. (_, refl)) (λ _. (_, refl))

  tool_call-Ended :
      (defs : List (String × Map)) (id block : String) → Ended (tool_call w defs id block)
  unfolding tool_call
  tool_call-Ended defs id block = on (head_of block (cut_text "<arg_key>" block))
    where
      defined : (name raw : String) (d : Option Map) → Ended (defined_call w id name raw d)
      defined name raw none = (_, refl)
      defined name raw (some def) =
          finished_call-Ended id name (as_object (at "parameters" def)) _ (
            arguments-Ended (as_object (at "parameters" def)) (suc (size raw)) raw [] (omega arith))

      on : (x : String × String) → Ended (defined_call w id x.0 x.1 (lookup x.0 defs))
      on (name, raw) = defined name raw (lookup name defs)

  module _ (defs : List (String × Map)) (ids : ℕ → String) where
    with_call-Ended :
        (g : Generated) (before : String) (x : Option (Result ToolCall))
        (next : Generated → Option (Result Generated))
        → Ended x
        → ((g : Generated) → Ended (next g))
        → Ended (with_call g before x next)
    with_call-Ended g before none next (r, e) f = cc
    with_call-Ended g before (some (err x)) next e f = (err x, refl)
    with_call-Ended g before (some (ok c)) next e f =
        if_cases Ended (ltb 32 (length (g.calls ++ c ∷ []))) _ _ (λ _. (_, refl)) (λ _. f _)

    tool_calls-Ended :
        (n : ℕ) (content : String) (g : Generated)
        → size content < n
        → Ended (tool_calls w defs ids n content g)
    unfolding tool_calls
    tool_calls-Ended zero content g h = absurd (omega (arith, h))
    tool_calls-Ended (suc n) content g h =
        opened (cut_text "<tool_call>" content) refl
          (λ behind g' less. tool_calls-Ended n behind g' less)
      where
        Shorter : Type 0
        Shorter =
            (behind : String) (g' : Generated)
            → size behind < n
            → Ended (tool_calls w defs ids n behind g')

        closed :
            (before behind : String) (x : Option (String × String))
            → cut_text "</tool_call>" behind ≡ x
            → size behind < size content
            → Shorter
            → Ended (in_block w defs ids g before x (tool_calls w defs ids n))
        closed before behind none found less f = (_, refl)
        closed before behind (some (block, rest)) found less f =
            with_call-Ended g before (tool_call w defs (ids (length g.calls)) block)
              (tool_calls w defs ids n rest) (tool_call-Ended defs (ids (length g.calls)) block)
              (λ g'. f rest g' (
                omega (arith, h, less, cut_text-size-lt "<" "/tool_call>" behind block rest found)))

        opened :
            (x : Option (String × String))
            → cut_text "<tool_call>" content ≡ x
            → Shorter
            → Ended (at_call w defs ids g content x (tool_calls w defs ids n))
        opened none found f = (_, refl)
        opened (some (before, behind)) found f =
            closed before behind (cut_text "</tool_call>" behind) refl
              (cut_text-size-lt "<" "tool_call>" content before behind found) f

  -- Whatever the engine has generated, the loops over its calls and their arguments end: the parser
  -- gives a message or an error, and does not run out of its fuel.
  pub parse_glm_tool_output-ends :
      (ids : ℕ → String) (raw finish : String) (p : Map)
      → (r : Result Turn) × (parse_glm_tool_output w ids raw finish p ≡ some r)
  unfolding parse_glm_tool_output
  parse_glm_tool_output-ends ids raw finish p =
      let out = or_same raw (cut_prefix "<think>" raw) in
      on (segments finish out (cut_text "</think>" out))
    where
      collected :
          (reasoning : String) (x : Option (Result Generated))
          → Ended x
          → Ended (with_calls p reasoning x)
      collected reasoning none (r, e) = cc
      collected reasoning (some (err x)) e = (err x, refl)
      collected reasoning (some (ok g)) e =
          if_cases Ended (is_false (at "parallel_tool_calls" p) && ltb 1 (length g.calls)) _ _
            (λ _. (_, refl)) (λ _. (_, refl))

      stopped :
          (reasoning content : String) (b : Bool)
          → Ended (elim b as (λ _. Option (Result Turn)) [
            | false ↦
                some
                  (ok (record { content = ""; reasoning = reasoning; calls = []; finish = finish }))
            | true ↦ with_calls p reasoning (
                tool_calls w
                  (definitions p)
                  ids
                  (suc (size content))
                  content
                  (record { prose = ""; calls = [] }))
          ])
      stopped reasoning content false = (_, refl)
      stopped reasoning content true =
          collected reasoning _
            (tool_calls-Ended (definitions p) ids (suc (size content)) content _ (omega arith))

      said :
          (reasoning content : String) (x : Option (String × String))
          → Ended (told w ids finish p reasoning content x)
      said reasoning content none = (_, refl)
      said reasoning content (some cut) = stopped reasoning content (finish == "stop")

      on : (r : Result (String × String)) → Ended (in_segments w ids finish p r)
      on (err e) = (err e, refl)
      on (ok (reasoning, content)) = said reasoning content (cut_text "<tool_call>" content)
