-- ===== src/Paired/Metrics/Merge.antt =====
-- What mergeMetricMaps asks of the two ranks, and what it leaves as it is.
use strix_halo_cluster_glm.Base.{
  String, List, [], ◌∷◌, ◌≡◌, ◌≢◌, refl, sym, ap, ◌∙◌, ◌⊎◌, inl, inr, arith, true, false, not, ◌&&◌,
  Option, none, some, ok, eq_iff, insert, lookup-insert, All, Bool-cases, ok-injective, >>-eq-ok,
  refuse->>-eq-ok, sprint,
}
use strix_halo_cluster_glm.Json.{Json, Map, at, is_null, deep_equal}
use strix_halo_cluster_glm.Paired.Payload.{Codec}
use strix_halo_cluster_glm.Paired.Metrics.{
  accounting_keys, accounting_agrees, with_max, merge_metric_maps,
}

-- A rank does not report the number, or both report the same.
abbrev pub Agrees : Map → Map → String → Type 0
Agrees a b k =
    (is_null (at k a) ≡ true) ⊎ (is_null (at k b) ≡ true) ⊎ (deep_equal (at k a) (at k b) ≡ true)

refused-Agrees :
    (a b : Map) (k : String)
    → (not (is_null (at k a)) && not (is_null (at k b)) && not (deep_equal (at k a) (at k b)))
      ≡ false
    → Agrees a b k
refused-Agrees a b k h = elim (Bool-cases (is_null (at k a))) [
  | inl e ↦ inl e
  | inr e ↦ elim (Bool-cases (is_null (at k b))) [
    | inl f ↦ inr (inl f)
    | inr f ↦ inr (inr (ground (arith, h, e, f)))
  ]
]

Agrees-All : (ks : List String) (a b : Map) → accounting_agrees ks a b ≡ ok tt → All (Agrees a b) ks
unfolding accounting_agrees
Agrees-All [] a b h = tt
Agrees-All (k ∷ ks) a b h =
    let (passed, rest) =
      refuse->>-eq-ok _ (sprint ("rank prefill accounting differs for " ∷ k ∷ []))
        (accounting_agrees ks a b) h in
    (refused-Agrees a b k passed, Agrees-All ks a b rest)

at-insert : (k j : String) (v : Json) (m : Map) → j ≢ k → at j (insert k v m) ≡ at j m
unfolding at
at-insert k j v m h = ground (arith, lookup-insert k j v m, eq_iff k j, h)

module _ (c : Codec) where
  -- Where mergeMetricMaps succeeds, each of the prompt's five token counts (computed, cached, from the
  -- local cache, from the external cache, written to the cache) is missing from one rank's metrics or
  -- the same in both.
  pub merge_metric_maps-Agrees :
      (a b m : Map)
      → merge_metric_maps c a b ≡ ok m
      → Agrees a b "prompt_tokens_computed"
        × Agrees a b "prompt_tokens_cached"
        × Agrees a b "prompt_tokens_local_cache"
        × Agrees a b "prompt_tokens_external_cache"
        × Agrees a b "prompt_tokens_cache_creation"
  unfolding merge_metric_maps
  merge_metric_maps-Agrees a b m h =
      let all =
        Agrees-All accounting_keys a b (>>-eq-ok (accounting_agrees accounting_keys a b) _ h).0 in
      (all.0, all.1.0, all.1.1.0, all.1.1.1.0, all.1.1.1.1.0)

  at-with_max :
      (x y : Option c.Float) (k : String) (m : Map)
      → k ≢ "pair_prefill_engine_ms_max"
      → k ≢ "pair_prefill_scope"
      → at k (with_max c x y m) ≡ at k m
  unfolding with_max
  at-with_max (some x) (some y) k m p q =
      at-insert "pair_prefill_scope" k _ _ q ∙ at-insert "pair_prefill_engine_ms_max" k _ m p
  at-with_max (some x) none k m p q = refl
  at-with_max none y k m p q = refl

  -- mergeMetricMaps leaves every member of the first rank's metrics as it is, but for the two that
  -- it adds.
  pub at-merge_metric_maps :
      (a b m : Map) (k : String)
      → merge_metric_maps c a b ≡ ok m
      → k ≢ "pair_prefill_engine_ms_max"
      → k ≢ "pair_prefill_scope"
      → at k m ≡ at k a
  unfolding merge_metric_maps
  at-merge_metric_maps a b m k h p q =
      let (_, same) = >>-eq-ok (accounting_agrees accounting_keys a b) _ h in
      ap (at k) (sym (ok-injective same)) ∙ at-with_max _ _ k a p q
