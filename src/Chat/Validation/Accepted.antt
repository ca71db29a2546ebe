-- ===== src/Chat/Validation/Accepted.antt =====
-- What is known of a chat request that was accepted.
use mathlib.Core.List.{Memᴰ}
use strix_halo_cluster_glm.Base.{
  subst, any, eq_iff, Bool-cases, ◌⊎◌, inl, inr, ◌==◌, ◌≢◌, ℕ, suc, zero, String, List, [], ◌∷◌,
  ◌≡◌, refl, sym, ap, ◌∙◌, ◌≤◌, arith, Bool, true, false, not, ◌||◌, Option, none, some, ok, all,
  All, lookup, length, >>-eq-ok, refuse-eq-ok, refuse->>-eq-ok,
}
use strix_halo_cluster_glm.Base.Integer.{ℤ, pos, negsuc, int_eq}
use strix_halo_cluster_glm.Json.{Json, null, boolean, number, text, array, object, Map, at, is_null}
use strix_halo_cluster_glm.Chat.Request.{
  Wire, as_array, as_object, string_value, is_object, is_string, is_boolean, int_le,
}
use strix_halo_cluster_glm.Chat.Envelope.Answered.{validate_tool_envelope-IsAnswered}
use strix_halo_cluster_glm.Chat.Validation.Expected.{
  HasRole, IsNamed, HasContent, IsMessage, IsWithin, IsCount, IsBetween, IsTopK, Qualified,
  IsBounded, IsAccepted, any-Mem, all-All, string_value-text, is_null-null, not_null, is_true-true,
  is_string-text,
}
use strix_halo_cluster_glm.Chat.Validation.{
  chat_fields, tool_fields, is_number_in, is_zero_value, is_allowed, absent_or, is_role,
  is_message_field, is_content, chat_message, chat_messages, is_messages, Bounds, integer_controls,
  within, is_integer_in, integers_in, numbers_in, number_controls, is_zero, stop_control,
  template_control, stream_control, tool_control, controls, validate_chat,
}

is_role-HasRole : (tools : Bool) (role : String) → is_role tools role ≡ true → HasRole tools role
is_role-HasRole tools role h = ground (
  arith,
  h,
  eq_iff role "system",
  eq_iff role "user",
  eq_iff role "assistant",
  eq_iff role "tool",
)

HasRole-filled : (tools : Bool) (role : String) → HasRole tools role → (role == "") ≡ false
HasRole-filled tools role (inl e) = ap (λ r. r == "") e
HasRole-filled tools role (inr (inl e)) = ap (λ r. r == "") e
HasRole-filled tools role (inr (inr (inl e))) = ap (λ r. r == "") e
HasRole-filled tools role (inr (inr (inr (_, e)))) = ap (λ r. r == "") e

message_field-IsNamed :
    (tools : Bool) (key : String)
    → is_message_field tools key ≡ true
    → IsNamed tools
        ("role" ∷ "content" ∷ [])
        ("tool_calls" ∷ "tool_call_id" ∷ "name" ∷ "reasoning_content" ∷ [])
        key
message_field-IsNamed tools key h =
    elim (Bool-cases (any (λ k. key == k) ("role" ∷ "content" ∷ []))) [
      | inl e ↦ inl (any-Mem key _ e)
      | inr e ↦ inr (ground (arith, h, e), any-Mem key _ (ground (arith, h, e)))
    ]

is_allowed-IsNamed :
    (tools : Bool) (key : String)
    → is_allowed tools key ≡ true
    → IsNamed tools chat_fields ("tools" ∷ "tool_choice" ∷ "parallel_tool_calls" ∷ []) key
is_allowed-IsNamed tools key h = elim (Bool-cases (any (λ k. key == k) chat_fields)) [
  | inl e ↦ inl (any-Mem key chat_fields e)
  | inr e ↦ inr (with_tools tools (ground (arith, h, e)))
]
  where
    with_tools :
        (tools : Bool)
        → any (λ k. key == k) (tool_fields tools) ≡ true
        → (tools ≡ true) × Memᴰ key ("tools" ∷ "tool_choice" ∷ "parallel_tool_calls" ∷ [])
    with_tools true e = (refl, any-Mem key _ e)
    with_tools false e = cc

is_content-HasContent : (tools : Bool) (m : Map) → is_content tools m ≡ true → HasContent tools m
is_content-HasContent tools m h = elim (Bool-cases (is_string (at "content" m))) [
  | inl e ↦ inl (is_string-text (at "content" m) e)
  | inr e ↦ inr (
    ground (arith, h, e),
    string_value-text (at "role" m) "assistant" refl
        ((eq_iff (string_value (at "role" m)) "assistant").0 (ground (arith, h, e))),
    is_null-null (at "content" m) (ground (arith, h, e)),
    not_null (at "tool_calls" m) (ground (arith, h, e)),
  )
]

chat_messages-All :
    (tools : Bool) (vs : List Json) → chat_messages tools vs ≡ ok tt → All (IsMessage tools) vs
unfolding chat_messages
chat_messages-All tools [] h = tt
chat_messages-All tools (v ∷ vs) h =
    let (one, rest) = >>-eq-ok (chat_message tools v) _ h in
    (message one, chat_messages-All tools vs rest)
  where
    message : chat_message tools v ≡ ok tt → IsMessage tools v
    message h =
        let m = as_object v in
        let (_, h₁) = refuse->>-eq-ok (not (is_object v)) _ _ h in
        let (role, h₂) =
          refuse->>-eq-ok (not (is_role tools (string_value (at "role" m)))) _ _ h₁ in
        let (fields, h₃) = refuse->>-eq-ok (not (all (λ e. is_message_field tools e.0) m)) _ _ h₂ in
        let content = refuse-eq-ok (not (is_content tools m)) _ h₃ in
        let has_role = is_role-HasRole tools (string_value (at "role" m)) (ground (arith, role)) in
        record {
          role_text = string_value (at "role" m);
          said = string_value-text (at "role" m) _ (HasRole-filled tools _ has_role) refl;
          role = has_role;
          fields =
              all-All _ (is_message_field tools) m (message_field-IsNamed tools)
                (ground (arith, fields));
          content = is_content-HasContent tools m (ground (arith, content));
        }

is_integer_in-within :
    (w : Wire) (lo hi : ℤ) (v : Json)
    → is_integer_in w lo hi v ≡ true
    → (t : String) × (n : ℤ) × (v ≡ number t)
      × (w.whole t ≡ some n)
      × (int_le lo n ≡ true)
      × (int_le n hi ≡ true)
is_integer_in-within w lo hi (number t) h = go (w.whole t) refl h
  where
    go :
        (x : Option ℤ)
        → w.whole t ≡ x
        → within lo hi x ≡ true
        → (t' : String) × (n : ℤ) × (number t ≡ number t')
          × (w.whole t' ≡ some n)
          × (int_le lo n ≡ true)
          × (int_le n hi ≡ true)
    go none e h = cc
    go (some n) e h = (t, n, refl, e, ground (arith, h), ground (arith, h))
is_integer_in-within w lo hi null h = cc
is_integer_in-within w lo hi (boolean b) h = cc
is_integer_in-within w lo hi (text s) h = cc
is_integer_in-within w lo hi (array vs) h = cc
is_integer_in-within w lo hi (object ms) h = cc

integers_in-All :
    (w : Wire) (p : Map) (bs : List Bounds) → integers_in w p bs ≡ ok tt → All (IsWithin w p) bs
unfolding integers_in
integers_in-All w p [] h = tt
integers_in-All w p (b ∷ bs) h =
    let (inside, rest) =
      refuse->>-eq-ok (not (absent_or (is_integer_in w b.lo b.hi) (lookup b.key p))) _ _ h in
    (
      λ v found.
          is_integer_in-within w b.lo b.hi v
            (ap (absent_or (is_integer_in w b.lo b.hi)) (sym found) ∙ ground (arith, inside)),
      integers_in-All w p bs rest,
    )

IsWithin-IsCount :
    (w : Wire) (p : Map) (key : String) (lo hi : ℕ)
    → IsWithin w p (record { key = key; lo = pos lo; hi = pos hi })
    → IsCount w p key lo hi
IsWithin-IsCount w p key lo hi h =
    λ v found. let (t, n, e, whole, low, high) = h v found in go t n e whole low high
  where
    go :
        {v : Json} (t : String) (n : ℤ)
        → v ≡ number t
        → w.whole t ≡ some n
        → int_le (pos lo) n ≡ true
        → int_le n (pos hi) ≡ true
        → (t : String) × (n : ℕ) × (v ≡ number t) × (w.whole t ≡ some (pos n)) × (lo ≤ n) × (n ≤ hi)
    go t (pos n) e whole low high = (t, n, e, whole, ground (arith, low), ground (arith, high))
    go t (negsuc n) e whole low high = cc

at-lookup : (k : String) (p : Map) (v : Json) → lookup k p ≡ some v → at k p ≡ v
unfolding at
at-lookup k p v h = rw h refl

IsWithin-IsTopK :
    (w : Wire) (p : Map)
    → IsWithin w p (record { key = "top_k"; lo = negsuc 0; hi = pos 200000 })
    → is_zero w (at "top_k" p) ≡ false
    → IsTopK w p
IsWithin-IsTopK w p h zero_not = λ v found.
    let (t, n, e, whole, low, high) = h v found in
    let set = subst (λ x. is_zero w x ≡ false) (at-lookup "top_k" p v found ∙ e) zero_not in
    (t, e, go t n whole (ap is_zero_value (sym whole) ∙ set) low high)
  where
    go :
        (t : String) (n : ℤ)
        → w.whole t ≡ some n
        → int_eq n (pos 0) ≡ false
        → int_le (negsuc 0) n ≡ true
        → int_le n (pos 200000) ≡ true
        → (w.whole t ≡ some (negsuc 0))
          ⊎ ((n : ℕ) × (w.whole t ≡ some (pos n)) × (1 ≤ n) × (n ≤ 200000))
    go t (pos zero) whole set low high = cc
    go t (pos (suc n)) whole set low high = inr (suc n, whole, omega arith, ground (arith, high))
    go t (negsuc zero) whole set low high = inl whole
    go t (negsuc (suc n)) whole set low high = absurd (ground (arith, low))

numbers_in-All :
    (w : Wire) (p : Map) (bs : List (String × String × String))
    → numbers_in w p bs ≡ ok tt
    → All (λ b. IsBetween w p b.0 b.1 b.2) bs
unfolding numbers_in
numbers_in-All w p [] h = tt
numbers_in-All w p ((key, lo, hi) ∷ bs) h =
    let (inside, rest) =
      refuse->>-eq-ok (not (absent_or (is_number_in w lo hi) (lookup key p))) _ _ h in
    (
      λ v found.
          between v (ap (absent_or (is_number_in w lo hi)) (sym found) ∙ ground (arith, inside)),
      numbers_in-All w p bs rest,
    )
  where
    between :
        (v : Json)
        → is_number_in w lo hi v ≡ true
        → (t : String) × (v ≡ number t) × (w.at_most lo t ≡ true) × (w.at_most t hi ≡ true)
    between (number t) h = (t, refl, ground (arith, h), ground (arith, h))
    between null h = cc
    between (boolean b) h = cc
    between (text s) h = cc
    between (array vs) h = cc
    between (object ms) h = cc

is_messages-length :
    (v : Json) → is_messages v ≡ true → (1 ≤ length (as_array v)) × (length (as_array v) ≤ 512)
is_messages-length (array vs) h = (ground (arith, h), ground (arith, h))
is_messages-length null h = cc
is_messages-length (boolean b) h = cc
is_messages-length (number n) h = cc
is_messages-length (text s) h = cc
is_messages-length (object ms) h = cc

-- What the checks behind those of the messages establish.
record Controlled (w : Wire) (tools : Bool) (p : Map) : Type 0 where
  bounded : IsBounded w p
  streamed : at "stream_options" p ≢ null → at "stream" p ≡ boolean true
  qualified : Qualified tools p

module _ (w : Wire) (reasoning_ok : String → Bool) (p : Map) where
  stream_control-streamed :
      stream_control p ≡ ok tt → at "stream_options" p ≢ null → at "stream" p ≡ boolean true
  unfolding stream_control
  stream_control-streamed h given = elim (Bool-cases (is_null (at "stream_options" p))) [
    | inl e ↦ absurd (given (is_null-null (at "stream_options" p) e))
    | inr e ↦ is_true-true (at "stream" p) (ground (arith, h, e))
  ]

  tool_control-Qualified : (tools : Bool) → tool_control w tools p ≡ ok tt → Qualified tools p
  tool_control-Qualified true h = validate_tool_envelope-IsAnswered w p h
  tool_control-Qualified false h =
      let none_given =
        refuse-eq-ok (not (is_null (at "tools" p)) || not (is_null (at "functions" p))) _ h in
      (
        is_null-null (at "tools" p) (ground (arith, none_given)),
        is_null-null (at "functions" p) (ground (arith, none_given)),
      )

  integers_in-IsBounded :
      integers_in w p integer_controls ≡ ok tt
      → is_zero w (at "top_k" p) ≡ false
      → numbers_in w p number_controls ≡ ok tt
      → IsBounded w p
  integers_in-IsBounded integers top_k numbers =
      let i = integers_in-All w p integer_controls integers in
      let f = numbers_in-All w p number_controls numbers in
      record {
        max_tokens = IsWithin-IsCount w p _ _ _ i.0;
        max_completion_tokens = IsWithin-IsCount w p _ _ _ i.1.0;
        thinking_token_budget = IsWithin-IsCount w p _ _ _ i.1.1.0;
        context_tokens = IsWithin-IsCount w p _ _ _ i.1.1.1.0;
        top_k = IsWithin-IsTopK w p i.1.1.1.1.0 top_k;
        n = IsWithin-IsCount w p _ _ _ i.1.1.1.1.1.0;
        seed = IsWithin-IsCount w p _ _ _ i.1.1.1.1.1.1.0;
        temperature = f.0;
        top_p = f.1.0;
        min_p = f.1.1.0;
        presence_penalty = f.1.1.1.0;
        frequency_penalty = f.1.1.1.1.0;
        repetition_penalty = f.1.1.1.1.1.0;
      }

  controls-Controlled :
      (tools : Bool) → controls w tools reasoning_ok p ≡ ok tt → Controlled w tools p
  unfolding controls
  controls-Controlled tools h =
      let (_, h₁) = refuse->>-eq-ok (not (absent_or is_boolean (lookup "stream" p))) _ _ h in
      let (integers, h₂) = >>-eq-ok (integers_in w p integer_controls) _ h₁ in
      let (top_k, h₃) = refuse->>-eq-ok (is_zero w (at "top_k" p)) _ _ h₂ in
      let (numbers, h₄) = >>-eq-ok (numbers_in w p number_controls) _ h₃ in
      let (_, h₅) = refuse->>-eq-ok (is_zero w (at "top_p" p)) _ _ h₄ in
      let (_, h₆) = >>-eq-ok (stop_control (lookup "stop" p)) _ h₅ in
      let (_, h₇) =
        >>-eq-ok (template_control reasoning_ok (lookup "chat_template_kwargs" p)) _ h₆ in
      let (_, h₈) =
        refuse->>-eq-ok
          (not (absent_or (λ r. reasoning_ok (string_value r)) (lookup "reasoning_effort" p))) _ _
          h₇ in
      let (stream, tool) = >>-eq-ok (stream_control p) _ h₈ in
      record {
        bounded = integers_in-IsBounded integers top_k numbers;
        streamed = stream_control-streamed stream;
        qualified = tool_control-Qualified tools tool;
      }

  -- An accepted request has only the 21 known fields (24 with tools) and from 1 to 512 messages, each
  -- of the role system, user or assistant (or tool, with tools), with known fields and with text (or,
  -- with tools, the calls of an assistant); the token limits, the budget, the context, top_k, n, seed
  -- and the six sampling numbers that it gives are numbers within the bounds listed; stream options come with a stream; with tools its
  -- transcript is answered call by call, and without them it offers none.
  pub validate_chat-IsAccepted :
      (tools : Bool) → validate_chat w tools reasoning_ok (some p) ≡ ok tt → IsAccepted w tools p
  unfolding validate_chat
  validate_chat-IsAccepted tools h =
      let (fields, h₁) = refuse->>-eq-ok (not (all (λ e. is_allowed tools e.0) p)) _ _ h in
      let (_, h₂) = refuse->>-eq-ok (not (absent_or is_string (lookup "model" p))) _ _ h₁ in
      let (_, h₃) = refuse->>-eq-ok (not (absent_or is_string (lookup "profile" p))) _ _ h₂ in
      let (present, h₄) = refuse->>-eq-ok (not (is_messages (at "messages" p))) _ _ h₃ in
      let (messages, last) = >>-eq-ok (chat_messages tools (as_array (at "messages" p))) _ h₄ in
      let (one, limit) = is_messages-length (at "messages" p) (ground (arith, present)) in
      let c = controls-Controlled tools last in
      record {
        fields = all-All _ (is_allowed tools) p (is_allowed-IsNamed tools) (ground (arith, fields));
        some_message = one;
        limit = limit;
        each = chat_messages-All tools (as_array (at "messages" p)) messages;
        bounded = c.bounded;
        streamed = c.streamed;
        qualified = c.qualified;
      }
