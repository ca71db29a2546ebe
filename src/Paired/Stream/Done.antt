-- ===== src/Paired/Stream/Done.antt =====
-- A stream is complete exactly at the event that ends it.
use strix_halo_cluster_glm.Base.{
  String, List, [], ◌∷◌, ◌++◌, ◌≡◌, ◌≢◌, refl, sym, ap, ◌∙◌, inl, inr, arith, Bool, true, false,
  not, ok, err, ◌==◌, eq_iff, ne_of_test, if◌then◌else◌, All, Bool-cases, ok-injective, >>=-eq-ok,
  refuse->>-eq-ok,
}
use strix_halo_cluster_glm.Json.{Json, at}
use strix_halo_cluster_glm.Paired.Payload.{Codec, paired_object}
use strix_halo_cluster_glm.Paired.Stream.{
  stream_choices, add_choices, Stream, empty_stream, feed, feed_open, feed_object, finish, feed_all,
}

module _ (c : Codec) where
  feed_object-done :
      (s : Stream) (b : String) (x : Bool × Stream) → feed_object c s b ≡ ok x → x.1.done ≡ s.done
  feed_object-done s b x h =
      let (v, _, h₁) = >>=-eq-ok (paired_object c b) _ h in
      let (cvs, _, h₂) = >>=-eq-ok (stream_choices (at "choices" v)) _ h₁ in
      let (y, _, h₃) = >>=-eq-ok (add_choices c s.choices false cvs) _ h₂ in
      ap (λ z. z.1.done) (sym (ok-injective h₃))

  feed_open-done :
      (s : Stream) (b : String) (x : Bool × Stream) (t : Bool)
      → s.done ≡ false
      → feed_open c s b t ≡ ok x
      → x.1.done ≡ t
  feed_open-done s b x true o h = ap (λ z. z.1.done) (sym (ok-injective h))
  feed_open-done s b x false o h = feed_object-done s b x h ∙ o

  -- An event that was taken came to an open stream, and closes it exactly where it is the end event.
  feed-done :
      (s : Stream) (b : String) (x : Bool × Stream)
      → feed c s b ≡ ok x
      → (s.done ≡ false) × (x.1.done ≡ (b == "[DONE]"))
  unfolding feed
  feed-done s b x h = go s.done refl h
    where
      go :
          (d : Bool)
          → s.done ≡ d
          → (if d then err "event after DONE" else feed_open c s b (b == "[DONE]")) ≡ ok x
          → (s.done ≡ false) × (x.1.done ≡ (b == "[DONE]"))
      go true o e = cc
      go false o e = (o, feed_open-done s b x (b == "[DONE]") o e)

  -- Nothing is taken behind the end event.
  feed_all-closed :
      (s t : Stream) (bs : List String) → s.done ≡ true → feed_all c s bs ≡ ok t → bs ≡ []
  unfolding feed_all
  feed_all-closed s t [] d h = refl
  feed_all-closed s t (b ∷ bs) d h =
      let (x, fed, _) = >>=-eq-ok (feed c s b) (λ x. feed_all c x.1 bs) h in
      absurd (ground (arith, (feed-done s b x fed).0, d))

  feed_all-ends :
      (s t : Stream) (bs : List String)
      → s.done ≡ false
      → feed_all c s bs ≡ ok t
      → t.done ≡ true
      → (before : List String) × (bs ≡ before ++ "[DONE]" ∷ []) × All (λ b. b ≢ "[DONE]") before
  unfolding feed_all
  feed_all-ends s t [] o h d = absurd (ground (arith, o, ap (λ z. z.done) (ok-injective h), d))
  feed_all-ends s t (b ∷ bs) o h d =
      let (x, fed, rest) = >>=-eq-ok (feed c s b) (λ x. feed_all c x.1 bs) h in
      let ends = (feed-done s b x fed).1 in
      elim (Bool-cases (b == "[DONE]")) [
        | inl last ↦ (
          [],
          ap (λ l. b ∷ l) (feed_all-closed x.1 t bs (ends ∙ last) rest)
              ∙ ap (λ l. l ∷ []) ((eq_iff _ _).0 last),
          tt,
        )
        | inr more ↦
            let (before, same, each) = feed_all-ends x.1 t bs (ends ∙ more) rest d in
            (b ∷ before, ap (λ l. b ∷ l) same, (ne_of_test b "[DONE]" more, each))
      ]

  -- Where the accumulator takes all events of a stream and finishes, the last event is the one that
  -- ends a stream and no earlier one is: an answer is neither cut off nor followed by anything.
  pub finish-ends :
      (bs : List String) (s : Stream) (v : Json)
      → feed_all c empty_stream bs ≡ ok s
      → finish c s ≡ ok v
      → (before : List String) × (bs ≡ before ++ "[DONE]" ∷ []) × All (λ b. b ≢ "[DONE]") before
  unfolding finish
  finish-ends bs s v fed done =
      let (open_still, _) = refuse->>-eq-ok (not s.done) "stream ended without DONE" _ done in
      feed_all-ends empty_stream s bs refl fed (ground (arith, open_still))
