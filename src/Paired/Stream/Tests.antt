-- ===== src/Paired/Stream/Tests.antt =====
-- A stream of one generated event and the event that ends it.
use strix_halo_cluster_glm.Base.{
  String, List, [], ◌∷◌, ◌++◌, ℕ, ◌≡◌, ◌≢◌, refl, true, none, some, ok, All, ltb, lookup, insert,
  sprint,
}
use strix_halo_cluster_glm.Json.{
  number, text, array, object, Map, value, no_value, from_members, at,
}
use strix_halo_cluster_glm.Paired.Payload.{Codec, paired_object, paired_index, paired_choices}
use strix_halo_cluster_glm.Paired.Stream.{Stream, empty_stream, feed_all, finish, at_index, put}
use strix_halo_cluster_glm.Paired.Stream.Done.{finish-ends}

abbrev choice : Map
choice = ("index", number "0") ∷ ("text", text "hi") ∷ ("finish_reason", text "stop") ∷ []

-- Every text decodes to one event.
abbrev codec : Codec
codec = record {
  decode = λ s. ok (
      object
        (from_members (("choices", array (value (object (from_members choice)) no_value)) ∷ [])));
  encode = λ v. ok "{}";
  atoi = λ s. some 0;
  Float = ℕ;
  parse_float = λ s. none;
  float_less = ltb;
  format_float = λ n. "1";
}

abbrev taken : Stream
taken = record { choices = (0, record { members = choice; message = none }) ∷ []; done = true }

events_taken : feed_all codec empty_stream ("{}" ∷ "[DONE]" ∷ []) ≡ ok taken
unfolding feed_all paired_object paired_index at lookup insert sprint at_index put
events_taken = refl

stream_finished : finish codec taken ≡ ok (array (value (object (from_members choice)) no_value))
unfolding finish paired_choices lookup
stream_finished = refl

finish-ends_example :
    (before : List String) × ("{}" ∷ "[DONE]" ∷ [] ≡ before ++ "[DONE]" ∷ [])
    × All (λ b. b ≢ "[DONE]") before
finish-ends_example =
    finish-ends codec ("{}" ∷ "[DONE]" ∷ []) taken
      (array (value (object (from_members choice)) no_value)) events_taken stream_finished
