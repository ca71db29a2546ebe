-- ===== src/Chat/Parts.antt =====
-- tools.go: normalizeToolText, which joins the text parts of a message.
pub mod Joined
use strix_halo_cluster_glm.Base.{
  String, List, [], ◌∷◌, ◌≡◌, refl, sym, ap, ◌∙◌, Bool, true, false, not, ◌||◌, Option, none, some,
  Result, ok, err, refuse, ◌>>=◌, ◌>>◌, ◌==◌, eqb, lookup, insert, lookup-insert, length, sprint,
  arith, ok-injective, >>=-eq-ok,
}
use strix_halo_cluster_glm.Json.{
  Json, null, boolean, number, text, array, object, Map, Members, at, is_text, values, members,
  from_members,
}
use strix_halo_cluster_glm.Chat.Request.{as_object, string_value, is_string}

-- The text of parts that are all plain text.
unfoldable pub joined_parts : List Json → Result String
unfolding at
joined_parts [] = ok ""
joined_parts (v ∷ vs) = do
  let o = as_object v
  refuse
      (not (is_string (at "text" o))
        || not (is_text (at "type" o) "text")
        || not (eqb (length o) 2))
      "only plain text content parts are supported"
  rest ← joined_parts vs
  ok (sprint (string_value (at "text" o) ∷ rest ∷ []))

abbrev pub with_content : Members → Result String → Result Json
with_content ms (err e) = err e
with_content ms (ok s) = ok (object (from_members (insert "content" (text s) (members ms))))

abbrev pub by_content : Members → Option Json → Result Json
by_content ms (some (array vs)) = with_content ms (joined_parts (values vs))
by_content ms content = ok (object ms)

-- One message.
unfoldable pub normalized : Json → Result Json
unfolding joined_parts
normalized (object ms) = by_content ms (lookup "content" (members ms))
normalized v = ok v

-- normalizeToolText, on the messages of the request
unfoldable pub normalize_tool_text : List Json → Result (List Json)
unfolding normalized
normalize_tool_text [] = ok []
normalize_tool_text (v ∷ vs) = do v' ← normalized v; vs' ← normalize_tool_text vs; ok (v' ∷ vs')
