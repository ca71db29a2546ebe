-- ===== src/Chat/Envelope/Answered.antt =====
-- The calls and the results of an accepted transcript.
use strix_halo_cluster_glm.Base.{
  String, List, [], ◌∷◌, ◌++◌, map, ◌≡◌, refl, sym, ap, ◌∙◌, ℕ, ◌+◌, ◌≤◌, arith, Bool, true, false,
  not, ◌&&◌, ◌||◌, Option, none, some, ok, ◌>>=◌, ◌==◌, eq_iff, eqb, ltb, if◌then◌else◌, lookup,
  length, ok-injective, >>-eq-ok, >>=-eq-ok, refuse-eq-ok, refuse->>-eq-ok,
}
use strix_halo_cluster_glm.Json.{
  Json, null, boolean, number, text, array, object, Map, at, is_null, values,
}
use strix_halo_cluster_glm.Chat.Request.{
  Wire, as_array, as_object, string_value, is_string, function_name,
}
use strix_halo_cluster_glm.Chat.Envelope.{
  Calls, has, call_id, is_bad_call, is_bad_result, historical_call, call_all, historical_calls,
  delete, tool_result, is_empty, spoken, turn, turns, tool_list, is_auto, is_flag,
  validate_tool_envelope,
}

-- How often a text stands in a list.
unfoldable pub count : String → List String → ℕ
count x [] = 0
count x (y ∷ ys) = (if y == x then 1 else 0) + count x ys

abbrev role_of : Json → String
role_of v = string_value (at "role" (as_object v))

-- The ids that a message calls, and those that it answers.
abbrev pub calls_of : Json → List String
calls_of v =
    if role_of v == "tool" then [] else map call_id (as_array (at "tool_calls" (as_object v)))

abbrev pub answers_of : Json → List String
answers_of v =
    if role_of v == "tool" then string_value (at "tool_call_id" (as_object v)) ∷ [] else []

unfoldable pub called : String → List Json → ℕ
called x [] = 0
called x (v ∷ vs) = count x (calls_of v) + called x vs

unfoldable pub answered : String → List Json → ℕ
answered x [] = 0
answered x (v ∷ vs) = count x (answers_of v) + answered x vs

has-count : (s : List String) (x : String) → has s x ≡ true → 1 ≤ count x s
unfolding count
has-count [] x h = cc
has-count (y ∷ ys) x h = ground (arith, has-count ys x)

hasnt-count : (s : List String) (x : String) → has s x ≡ false → count x s ≡ 0
unfolding count
hasnt-count [] x h = refl
hasnt-count (y ∷ ys) x h = ground (arith, hasnt-count ys x)

delete-count :
    (x tid : String) (s : List String)
    → count x (delete tid s) ≡ (if tid == x then 0 else count x s)
unfolding count delete
delete-count x tid [] = ground arith
delete-count x tid (y ∷ ys) =
    ground (arith, delete-count x tid ys, eq_iff y tid, eq_iff tid x, eq_iff y x)

module _ (w : Wire) (x : String) where
  -- The counts of one id before and behind a part of the transcript that calls and answers it so often.
  record Counts (s s' : Calls) (calls answers : ℕ) : Type 0 where
    waiting : count x s.pending + calls ≡ count x s'.pending + answers
    all_used : count x s'.used ≡ count x s.used + calls
    bound : count x s'.pending ≤ count x s'.used
    once : count x s'.used ≤ 1

  historical_call-new :
      (used : List String) (v : Json)
      → historical_call w used v ≡ ok tt
      → has used (call_id v) ≡ false
  unfolding historical_call
  historical_call-new used v h =
      let (seen, _) = refuse->>-eq-ok (is_bad_call used v) _ _ h in ground (arith, seen)

  call_all-Counts :
      (s s' : Calls) (vs : List Json)
      → count x s.pending ≤ count x s.used
      → count x s.used ≤ 1
      → call_all w s vs ≡ ok s'
      → Counts s s' (count x (map call_id vs)) 0
  unfolding call_all count
  call_all-Counts s s' [] bound once h =
      let same = ok-injective h in
      record {
        waiting = ground (arith, ap (λ z. count x z.pending) same);
        all_used = ground (arith, ap (λ z. count x z.used) same);
        bound =
            ground (arith, bound, ap (λ z. count x z.pending) same, ap (λ z. count x z.used) same);
        once = ground (arith, once, ap (λ z. count x z.used) same);
      }
  call_all-Counts s s' (v ∷ vs) bound once h =
      let (called, rest) = >>-eq-ok (historical_call w s.used v) _ h in
      let fresh = hasnt-count s.used (call_id v) (historical_call-new s.used v called) in
      let s₁ = record s { pending = call_id v ∷ s.pending; used = call_id v ∷ s.used } in
      let c =
        call_all-Counts s₁ s' vs (ground (arith, bound))
          (ground (arith, once, fresh, eq_iff (call_id v) x)) rest in
      record {
        waiting = ground (arith, c.waiting);
        all_used = ground (arith, c.all_used);
        bound = c.bound;
        once = c.once;
      }

  tool_result-Counts :
      (s s' : Calls) (m : Map)
      → count x s.pending ≤ count x s.used
      → count x s.used ≤ 1
      → tool_result s m ≡ ok s'
      → Counts s s' 0 (count x (string_value (at "tool_call_id" m) ∷ []))
  unfolding tool_result count
  tool_result-Counts s s' m bound once h =
      let tid = string_value (at "tool_call_id" m) in
      let (seen, rest) = refuse->>-eq-ok (is_bad_result s m) _ _ h in
      let same = ok-injective rest in
      let held = has-count s.pending tid (ground (arith, seen)) in
      let removed = delete-count x tid s.pending in
      let there : (tid == x) ≡ true → 1 ≤ count x s.pending =
        λ e. ground (arith, held, eq_iff tid x) in
      record {
        waiting = ground (arith, ap (λ z. count x z.pending) same, removed, there, bound, once);
        all_used = ground (arith, ap (λ z. count x z.used) same);
        bound = ground (
          arith,
          bound,
          ap (λ z. count x z.pending) same,
          removed,
          ap (λ z. count x z.used) same,
        );
        once = ground (arith, once, ap (λ z. count x z.used) same);
      }

  historical_calls-Counts :
      (role : String) (s s' : Calls) (m : Map) (calls : Option Json)
      → lookup "tool_calls" m ≡ calls
      → count x s.pending ≤ count x s.used
      → count x s.used ≤ 1
      → historical_calls w role s calls ≡ ok s'
      → Counts s s' (count x (map call_id (as_array (at "tool_calls" m)))) 0
  unfolding at count call_all
  historical_calls-Counts role s s' m none found bound once h =
      rw found (call_all-Counts s s' [] bound once h)
  historical_calls-Counts role s s' m (some (array vs)) found bound once h =
      let (_, rest) =
        refuse->>-eq-ok
          (not (role == "assistant") || eqb (length (values vs)) 0 || ltb 32 (length (values vs))) _
          _ h in
      rw found (call_all-Counts s s' (values vs) bound once rest)
  historical_calls-Counts role s s' m (some null) found bound once h = cc
  historical_calls-Counts role s s' m (some (boolean b)) found bound once h = cc
  historical_calls-Counts role s s' m (some (number n)) found bound once h = cc
  historical_calls-Counts role s s' m (some (text t)) found bound once h = cc
  historical_calls-Counts role s s' m (some (object o)) found bound once h = cc

  spoken-Counts :
      (role : String) (s s' : Calls) (m : Map)
      → count x s.pending ≤ count x s.used
      → count x s.used ≤ 1
      → spoken w role s m ≡ ok s'
      → Counts s s' (count x (map call_id (as_array (at "tool_calls" m)))) 0
  spoken-Counts role s s' m bound once h =
      let (_, h₁) = refuse->>-eq-ok (not (is_null (at "tool_call_id" m))) _ _ h in
      let (_, h₂) = refuse->>-eq-ok (not (is_empty s.pending)) _ _ h₁ in
      historical_calls-Counts role s s' m (lookup "tool_calls" m) refl bound once h₂

  turn-Counts :
      (s s' : Calls) (v : Json)
      → count x s.pending ≤ count x s.used
      → count x s.used ≤ 1
      → turn w s v ≡ ok s'
      → Counts s s' (count x (calls_of v)) (count x (answers_of v))
  unfolding turn count
  turn-Counts s s' v bound once h =
      let m = as_object v in
      let (_, h₁) =
        refuse->>-eq-ok (not (is_null (at "reasoning_content" m)) && not (role_of v == "assistant"))
          _ _ h in
      let (_, h₂) =
        refuse->>-eq-ok
          (not (is_null (at "reasoning_content" m)) && not (is_string (at "reasoning_content" m))) _
          _ h₁ in
      let (_, h₃) =
        refuse->>-eq-ok
          (not (is_null (at "name" m)) && not (function_name (string_value (at "name" m)))) _ _
          h₂ in
      go (role_of v == "tool") h₃
    where
      go :
          (b : Bool)
          → (if b then tool_result s (as_object v) else spoken w (role_of v) s (as_object v))
            ≡ ok s'
          → Counts s s'
              (count x (if b then [] else map call_id (as_array (at "tool_calls" (as_object v)))))
              (count x (if b then string_value (at "tool_call_id" (as_object v)) ∷ [] else []))
      go true h = tool_result-Counts s s' (as_object v) bound once h
      go false h = spoken-Counts (role_of v) s s' (as_object v) bound once h

  turns-Counts :
      (s s' : Calls) (vs : List Json)
      → count x s.pending ≤ count x s.used
      → count x s.used ≤ 1
      → turns w s vs ≡ ok s'
      → Counts s s' (called x vs) (answered x vs)
  unfolding turns called answered
  turns-Counts s s' [] bound once h =
      let same = ok-injective h in
      record {
        waiting = ground (arith, ap (λ z. count x z.pending) same);
        all_used = ground (arith, ap (λ z. count x z.used) same);
        bound =
            ground (arith, bound, ap (λ z. count x z.pending) same, ap (λ z. count x z.used) same);
        once = ground (arith, once, ap (λ z. count x z.used) same);
      }
  turns-Counts s s' (v ∷ vs) bound once h =
      let (s₁, first, rest) = >>=-eq-ok (turn w s v) (λ s'. turns w s' vs) h in
      let a = turn-Counts s s₁ v bound once first in
      let b = turns-Counts s₁ s' vs a.bound a.once rest in
      record {
        waiting = ground (arith, a.waiting, b.waiting);
        all_used = ground (arith, a.all_used, b.all_used);
        bound = b.bound;
        once = b.once;
      }

turns-append :
    (w : Wire) (s s' : Calls) (pre post : List Json)
    → turns w s (pre ++ post) ≡ ok s'
    → (mid : Calls) × (turns w s pre ≡ ok mid)
unfolding turns
turns-append w s s' [] post h = (s, refl)
turns-append w s s' (v ∷ pre) post h =
    let (s₁, first, rest) = >>=-eq-ok (turn w s v) (λ s'. turns w s' (pre ++ post)) h in
    let (mid, done) = turns-append w s₁ s' pre post rest in
    (mid, ap (λ r. r >>= λ s'. turns w s' pre) first ∙ done)

-- How the calls and the results of a transcript agree.
pub record IsAnswered (messages : List Json) : Type 0 where
  pub once : (id : String) → called id messages ≤ 1
  pub each : (id : String) → answered id messages ≡ called id messages
  pub after :
      (id : String) (pre post : List Json)
      → messages ≡ pre ++ post
      → answered id pre ≤ called id pre

module _ (w : Wire) (messages : List Json) (s : Calls) where
  abbrev fresh : Calls
  fresh = record { pending = []; used = [] }

  turns-IsAnswered : turns w fresh messages ≡ ok s → is_empty s.pending ≡ true → IsAnswered messages
  unfolding count
  turns-IsAnswered h settled = record {
    once = λ id.
        let c = turns-Counts w id fresh s messages (omega arith) (omega arith) h in
        ground (arith, c.all_used, c.once);
    each = λ id.
        let c = turns-Counts w id fresh s messages (omega arith) (omega arith) h in
        ground (arith, c.waiting, none_left id s.pending settled);
    after = λ id pre post split.
        let (mid, part) = turns-append w fresh s pre post (ap (turns w fresh) (sym split) ∙ h) in
        let c = turns-Counts w id fresh mid pre (omega arith) (omega arith) part in
        ground (arith, c.waiting);
  }
    where
      none_left : (id : String) (ys : List String) → is_empty ys ≡ true → count id ys ≡ 0
      none_left id [] e = refl
      none_left id (y ∷ ys) e = cc

-- In the transcript of an accepted request no call has the id of another, every call is answered by
-- exactly one message of a tool, no other message of a tool occurs, and every answer stands behind
-- its call.
pub validate_tool_envelope-IsAnswered :
    (w : Wire) (p : Map)
    → validate_tool_envelope w p ≡ ok tt
    → IsAnswered (as_array (at "messages" p))
unfolding validate_tool_envelope
validate_tool_envelope-IsAnswered w p h =
    let (_, h₁) = >>-eq-ok (tool_list (lookup "tools" p)) _ h in
    let (_, h₂) = refuse->>-eq-ok (not (is_auto (lookup "tool_choice" p))) _ _ h₁ in
    let (_, h₃) = refuse->>-eq-ok (not (is_flag (lookup "parallel_tool_calls" p))) _ _ h₂ in
    let (s, walked, last) =
      >>=-eq-ok (turns w (record { pending = []; used = [] }) (as_array (at "messages" p))) _ h₃ in
    turns-IsAnswered w (as_array (at "messages" p)) s walked
      (ground (arith, refuse-eq-ok (not (is_empty s.pending)) _ last))
