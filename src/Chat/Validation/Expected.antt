-- ===== src/Chat/Validation/Expected.antt =====
-- What is asked of a chat request, written out, and what the tests on decoded JSON mean.
use mathlib.Core.List.{Memᴰ}
use strix_halo_cluster_glm.Base.{
  any, eq_iff, Bool-cases, ◌⊎◌, inl, inr, ◌==◌, ◌≢◌, ℕ, String, List, [], ◌∷◌, ◌≡◌, refl, ap, ◌≤◌,
  arith, Bool, true, false, some, all, All, lookup, length,
}
use strix_halo_cluster_glm.Base.Integer.{ℤ, pos, negsuc}
use strix_halo_cluster_glm.Json.{Json, null, boolean, number, text, array, object, Map, at, is_null}
use strix_halo_cluster_glm.Chat.Request.{
  Wire, as_array, as_object, string_value, is_string, is_true, int_le,
}
use strix_halo_cluster_glm.Chat.Envelope.Answered.{IsAnswered}
use strix_halo_cluster_glm.Chat.Validation.{Bounds}

abbrev pub HasRole : Bool → String → Type 0
HasRole tools role =
    (role ≡ "system") ⊎ (role ≡ "user") ⊎ (role ≡ "assistant") ⊎ ((tools ≡ true) × (role ≡ "tool"))

-- A member of one of the names, or with tools one of the others.
abbrev pub IsNamed : Bool → List String → List String → String → Type 0
IsNamed tools names more key = (Memᴰ key names) ⊎ ((tools ≡ true) × Memᴰ key more)

-- Text, or with tools the calls of an assistant.
abbrev pub HasContent : Bool → Map → Type 0
HasContent tools m =
    ((s : String) × (at "content" m ≡ text s))
    ⊎ ((tools ≡ true)
        × (at "role" m ≡ text "assistant")
        × (at "content" m ≡ null)
        × (at "tool_calls" m ≢ null))

-- A message that the engine takes.
pub record IsMessage (tools : Bool) (v : Json) : Type 0 where
  pub role_text : String
  pub said : at "role" (as_object v) ≡ text role_text
  pub role : HasRole tools role_text
  pub fields :
      All
        (λ e.
          IsNamed tools
            ("role" ∷ "content" ∷ [])
            ("tool_calls" ∷ "tool_call_id" ∷ "name" ∷ "reasoning_content" ∷ [])
            e.0)
        (as_object v)
  pub content : HasContent tools (as_object v)

-- A control that is given is an integer within its bounds.
abbrev pub IsWithin : Wire → Map → Bounds → Type 0
IsWithin w p b =
    (v : Json)
    → lookup b.key p ≡ some v
    → (t : String) × (n : ℤ) × (v ≡ number t)
      × (w.whole t ≡ some n)
      × (int_le b.lo n ≡ true)
      × (int_le n b.hi ≡ true)

-- A control that is given is a natural number from the first to the second.
abbrev pub IsCount : Wire → Map → String → ℕ → ℕ → Type 0
IsCount w p key lo hi =
    (v : Json)
    → lookup key p ≡ some v
    → (t : String) × (n : ℕ) × (v ≡ number t) × (w.whole t ≡ some (pos n)) × (lo ≤ n) × (n ≤ hi)

-- A control that is given is a number between the two.
abbrev pub IsBetween : Wire → Map → String → String → String → Type 0
IsBetween w p key lo hi =
    (v : Json)
    → lookup key p ≡ some v
    → (t : String) × (v ≡ number t) × (w.at_most lo t ≡ true) × (w.at_most t hi ≡ true)

-- `top_k` is -1 or from 1 to 200000.
abbrev pub IsTopK : Wire → Map → Type 0
IsTopK w p =
    (v : Json)
    → lookup "top_k" p ≡ some v
    → (t : String) × (v ≡ number t)
      × ((w.whole t ≡ some (negsuc 0))
          ⊎ ((n : ℕ) × (w.whole t ≡ some (pos n)) × (1 ≤ n) × (n ≤ 200000)))

-- The transcript of a request with tools is answered; one without tools offers none.
abbrev pub Qualified : Bool → Map → Type 0
Qualified true p = IsAnswered (as_array (at "messages" p))
Qualified false p = (at "tools" p ≡ null) × (at "functions" p ≡ null)

-- The numbers of a request.
pub record IsBounded (w : Wire) (p : Map) : Type 0 where
  pub max_tokens : IsCount w p "max_tokens" 1 32768
  pub max_completion_tokens : IsCount w p "max_completion_tokens" 1 32768
  pub thinking_token_budget : IsCount w p "thinking_token_budget" 0 32767
  pub context_tokens : IsCount w p "context_tokens" 256 65536
  pub top_k : IsTopK w p
  pub n : IsCount w p "n" 1 1
  pub seed : IsCount w p "seed" 0 2147483647
  pub temperature : IsBetween w p "temperature" "0" "2"
  pub top_p : IsBetween w p "top_p" "0" "1"
  pub min_p : IsBetween w p "min_p" "0" "1"
  pub presence_penalty : IsBetween w p "presence_penalty" "-2" "2"
  pub frequency_penalty : IsBetween w p "frequency_penalty" "-2" "2"
  pub repetition_penalty : IsBetween w p "repetition_penalty" "0.01" "2"

pub record IsAccepted (w : Wire) (tools : Bool) (p : Map) : Type 0 where
  pub fields :
      All
        (λ e.
          IsNamed tools
            ("messages" ∷ "model" ∷ "stream" ∷ "stream_options" ∷ "max_tokens"
              ∷ "max_completion_tokens" ∷ "thinking_token_budget" ∷ "context_tokens" ∷ "profile"
              ∷ "reasoning_effort" ∷ "chat_template_kwargs" ∷ "temperature" ∷ "top_p" ∷ "top_k"
              ∷ "min_p" ∷ "presence_penalty" ∷ "frequency_penalty" ∷ "repetition_penalty" ∷ "seed"
              ∷ "n" ∷ "stop" ∷ [])
            ("tools" ∷ "tool_choice" ∷ "parallel_tool_calls" ∷ [])
            e.0)
        p
  pub some_message : 1 ≤ length (as_array (at "messages" p))
  pub limit : length (as_array (at "messages" p)) ≤ 512
  pub each : All (IsMessage tools) (as_array (at "messages" p))
  pub bounded : IsBounded w p
  pub streamed : at "stream_options" p ≢ null → at "stream" p ≡ boolean true
  pub qualified : Qualified tools p

pub any-Mem : (key : String) (ks : List String) → any (λ k. key == k) ks ≡ true → Memᴰ key ks
any-Mem key [] h = cc
any-Mem key (k ∷ ks) h = elim (Bool-cases (key == k)) [
  | inl e ↦ Memᴰ.head ((eq_iff key k).0 e)
  | inr e ↦ Memᴰ.tail (any-Mem key ks (ground (arith, h, e)))
]

-- The members whose keys pass a test.
pub all-All :
    (P : String → Type 0) (test : String → Bool) (m : Map)
    → ((k : String) → test k ≡ true → P k)
    → all (λ e. test e.0) m ≡ true
    → All (λ e. P e.0) m
all-All P test [] f h = tt
all-All P test ((k, v) ∷ m) f h = (f k (ground (arith, h)), all-All P test m f (ground (arith, h)))

pub string_value-text :
    (v : Json) (s : String) → (s == "") ≡ false → string_value v ≡ s → v ≡ text s
string_value-text (text t) s n e = ap text e
string_value-text null s n e = absurd (ground (arith, n, e, eq_iff s ""))
string_value-text (boolean b) s n e = absurd (ground (arith, n, e, eq_iff s ""))
string_value-text (number t) s n e = absurd (ground (arith, n, e, eq_iff s ""))
string_value-text (array vs) s n e = absurd (ground (arith, n, e, eq_iff s ""))
string_value-text (object ms) s n e = absurd (ground (arith, n, e, eq_iff s ""))

pub is_null-null : (v : Json) → is_null v ≡ true → v ≡ null
is_null-null null h = refl
is_null-null (boolean b) h = cc
is_null-null (number t) h = cc
is_null-null (text s) h = cc
is_null-null (array vs) h = cc
is_null-null (object ms) h = cc

pub not_null : (v : Json) → is_null v ≡ false → v ≢ null
not_null v h = λ e. let f = ap is_null e in cc

pub is_true-true : (v : Json) → is_true v ≡ true → v ≡ boolean true
is_true-true (boolean true) h = refl
is_true-true (boolean false) h = cc
is_true-true null h = cc
is_true-true (number t) h = cc
is_true-true (text s) h = cc
is_true-true (array vs) h = cc
is_true-true (object ms) h = cc

pub is_string-text : (v : Json) → is_string v ≡ true → (s : String) × (v ≡ text s)
is_string-text (text s) h = (s, refl)
is_string-text null h = cc
is_string-text (boolean b) h = cc
is_string-text (number t) h = cc
is_string-text (array vs) h = cc
is_string-text (object ms) h = cc
