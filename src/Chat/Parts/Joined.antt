-- ===== src/Chat/Parts/Joined.antt =====
-- What normalizeToolText makes of the messages.
use strix_halo_cluster_glm.Base.{
  String, List, [], ◌∷◌, ◌≡◌, ◌≢◌, refl, sym, ap, ◌∙◌, ◌⊎◌, inl, inr, arith, subst, Bool, true,
  false, not, ◌||◌, Option, none, some, Result, ok, err, lookup, insert, lookup-insert, length,
  sprint, eqb, eq_iff, ok-injective, >>=-eq-ok, refuse->>-eq-ok,
}
use strix_halo_cluster_glm.Json.{
  Json, null, boolean, number, text, array, object, Map, Values, values, members, from_members, at,
  is_text,
}
use strix_halo_cluster_glm.Chat.Request.{as_object, string_value, is_string}
use strix_halo_cluster_glm.Chat.Parts.{
  joined_parts, with_content, by_content, normalized, normalize_tool_text,
}

-- The part is an object of just a type, which says that it is text, and the text.
pub record IsPart (v : Json) (s : String) : Type 0 where
  pub type : at "type" (as_object v) ≡ text "text"
  pub text_is : at "text" (as_object v) ≡ text s
  pub two : length (as_object v) ≡ 2

-- Parts that are all plain text, and their texts one behind the other.
pub data AreParts : List Json → String → Type 0 where
  no_part : AreParts [] ""
  part :
      {v : Json} {vs : List Json} {s rest : String}
      → IsPart v s
      → AreParts vs rest
      → AreParts (v ∷ vs) (sprint (s ∷ rest ∷ []))

-- The message has a list of parts as its content, all of them plain text; behind the call its content
-- is the text of the parts, and every other member is as it was.
pub record IsJoined (v v' : Json) : Type 0 where
  pub parts : Values
  pub before : lookup "content" (as_object v) ≡ some (array parts)
  pub joined : String
  pub plain : AreParts (values parts) joined
  pub after : lookup "content" (as_object v') ≡ some (text joined)
  pub others : (k : String) → k ≢ "content" → lookup k (as_object v') ≡ lookup k (as_object v)

-- A message without a list of parts is left as it is.
abbrev pub IsKept : Json → Json → Type 0
IsKept v v' = ((parts : Values) → lookup "content" (as_object v) ≢ some (array parts)) × (v' ≡ v)

pub data AreNormal : List Json → List Json → Type 0 where
  no_message : AreNormal [] []
  message :
      {v v' : Json} {vs vs' : List Json}
      → (IsKept v v') ⊎ (IsJoined v v')
      → AreNormal vs vs'
      → AreNormal (v ∷ vs) (v' ∷ vs')

is_text-text : (v : Json) (t : String) → is_text v t ≡ true → v ≡ text t
is_text-text (text s) t h = ap text ((eq_iff s t).0 h)
is_text-text null t h = cc
is_text-text (boolean b) t h = cc
is_text-text (number n) t h = cc
is_text-text (array vs) t h = cc
is_text-text (object ms) t h = cc

string_value-text : (v : Json) → is_string v ≡ true → v ≡ text (string_value v)
string_value-text (text s) h = refl
string_value-text null h = cc
string_value-text (boolean b) h = cc
string_value-text (number n) h = cc
string_value-text (array vs) h = cc
string_value-text (object ms) h = cc

joined_parts-AreParts : (vs : List Json) (s : String) → joined_parts vs ≡ ok s → AreParts vs s
unfolding joined_parts
joined_parts-AreParts [] s h = subst (AreParts []) (ok-injective h) no_part
joined_parts-AreParts (v ∷ vs) s h =
    let o = as_object v in
    let (plain, h₁) =
      refuse->>-eq-ok
        (not (is_string (at "text" o))
          || not (is_text (at "type" o) "text")
          || not (eqb (length o) 2))
        _ _ h in
    let (rest, joined, h₂) =
      >>=-eq-ok (joined_parts vs) (λ rest. ok (sprint (string_value (at "text" o) ∷ rest ∷ [])))
        h₁ in
    subst (AreParts (v ∷ vs)) (ok-injective h₂) (
      part
        (record {
          type = is_text-text (at "type" o) "text" (ground (arith, plain));
          text_is = string_value-text (at "text" o) (ground (arith, plain));
          two = ground (arith, plain);
        })
        (joined_parts-AreParts vs rest joined))

members-from_members : (m : Map) → members (from_members m) ≡ m
members-from_members [] = refl
members-from_members ((k, v) ∷ m) = ap (λ m. (k, v) ∷ m) (members-from_members m)

abbrev is_list : Option Json → Bool
is_list (some (array vs)) = true
is_list x = false

not_list : (x : Option Json) → is_list x ≡ false → (vs : Values) → x ≢ some (array vs)
not_list x h vs f = let g = ap is_list f in cc

normalized-Normal : (v v' : Json) → normalized v ≡ ok v' → (IsKept v v') ⊎ (IsJoined v v')
unfolding normalized lookup
normalized-Normal (object ms) v' h = on (lookup "content" (members ms)) refl h
  where
    Normal : Type 0
    Normal = (IsKept (object ms) v') ⊎ (IsJoined (object ms) v')

    kept :
        {x : Option Json}
        → lookup "content" (members ms) ≡ x
        → ((vs : Values) → x ≢ some (array vs))
        → Result.ok (object ms) ≡ ok v'
        → Normal
    kept e other h = inl ((λ vs same. other vs (sym e ∙ same)), sym (ok-injective h))

    joined :
        (vs : Values)
        → lookup "content" (members ms) ≡ some (array vs)
        → (r : Result String) → joined_parts (values vs) ≡ r
        → with_content ms r ≡ ok v'
        → Normal
    joined vs e (err x) j h = cc
    joined vs e (ok s) j h =
        let m = insert "content" (text s) (members ms) in
        let same : as_object v' ≡ m =
          ap as_object (sym (ok-injective h)) ∙ members-from_members m in
        inr (record {
          parts = vs;
          before = e;
          joined = s;
          plain = joined_parts-AreParts (values vs) s j;
          after =
              ap (lookup "content") same ∙ lookup-insert "content" "content" (text s) (members ms);
          others = λ k other.
              ap (lookup k) same
              ∙ ground (
                arith,
                lookup-insert "content" k (text s) (members ms),
                eq_iff "content" k,
                eq_iff k "content",
                other,
              );
        })

    on : (x : Option Json) → lookup "content" (members ms) ≡ x → by_content ms x ≡ ok v' → Normal
    on none e h = kept e (not_list _ refl) h
    on (some null) e h = kept e (not_list _ refl) h
    on (some (boolean b)) e h = kept e (not_list _ refl) h
    on (some (number n)) e h = kept e (not_list _ refl) h
    on (some (text s)) e h = kept e (not_list _ refl) h
    on (some (object o)) e h = kept e (not_list _ refl) h
    on (some (array vs)) e h = joined vs e _ refl h
normalized-Normal null v' h = inl (not_list none refl, sym (ok-injective h))
normalized-Normal (boolean b) v' h = inl (not_list none refl, sym (ok-injective h))
normalized-Normal (number n) v' h = inl (not_list none refl, sym (ok-injective h))
normalized-Normal (text s) v' h = inl (not_list none refl, sym (ok-injective h))
normalized-Normal (array vs) v' h = inl (not_list none refl, sym (ok-injective h))

-- Where `normalizeToolText` accepts the messages, it gives as many in their order: one whose content
-- is a list of parts has parts of plain text only, two members each, and gets their texts one behind
-- the other as its content, every other member as it was; any other message is left as it is.
pub normalize_tool_text-AreNormal :
    (vs vs' : List Json) → normalize_tool_text vs ≡ ok vs' → AreNormal vs vs'
unfolding normalize_tool_text
normalize_tool_text-AreNormal [] vs' h = subst (AreNormal []) (ok-injective h) no_message
normalize_tool_text-AreNormal (v ∷ vs) vs' h =
    let (v₁, one, h₁) = >>=-eq-ok (normalized v) _ h in
    let (vs₁, rest, h₂) = >>=-eq-ok (normalize_tool_text vs) (λ vs'. ok (v₁ ∷ vs')) h₁ in
    subst (AreNormal (v ∷ vs)) (ok-injective h₂)
      (message (normalized-Normal v v₁ one) (normalize_tool_text-AreNormal vs vs₁ rest))
