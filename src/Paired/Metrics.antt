-- ===== src/Paired/Metrics.antt =====
-- paired.go: the metrics of both ranks, merged into the answer of the first.
pub mod Merge
use strix_halo_cluster_glm.Base.{
  String, List, [], ◌∷◌, Bool, not, ◌&&◌, ◌||◌, Option, none, some, Result, ok, err, ◌==◌, ◌>>=◌,
  ◌>>◌, refuse, insert, sprint, join, if◌then◌else◌,
}
use strix_halo_cluster_glm.Json.{
  Json, number, text, object, Map, at, is_null, deep_equal, from_members,
}
use strix_halo_cluster_glm.Paired.Frames.{split_frames, sse_frame_data}
use strix_halo_cluster_glm.Paired.Payload.{Codec, paired_object, as_map}

abbrev pub accounting_keys : List String
accounting_keys =
    "prompt_tokens_computed" ∷ "prompt_tokens_cached" ∷ "prompt_tokens_local_cache"
    ∷ "prompt_tokens_external_cache" ∷ "prompt_tokens_cache_creation" ∷ []

unfoldable pub accounting_agrees : List String → Map → Map → Result (Unit {0})
accounting_agrees [] a b = ok tt
accounting_agrees (k ∷ ks) a b = do
  refuse (not (is_null (at k a)) && not (is_null (at k b)) && not (deep_equal (at k a) (at k b)))
      (sprint ("rank prefill accounting differs for " ∷ k ∷ []))
  accounting_agrees ks a b

module _ (c : Codec) where
  -- pairedFloat of a decoded value
  unfoldable pub paired_float : Json → Option c.Float
  paired_float (number n) = c.parse_float n
  paired_float _ = none

  abbrev larger : c.Float → c.Float → c.Float
  larger a b = if c.float_less a b then b else a

  unfoldable pub with_max : Option c.Float → Option c.Float → Map → Map
  with_max (some a) (some b) m =
      insert "pair_prefill_scope" (text "max_rank")
        (insert "pair_prefill_engine_ms_max" (number (c.format_float (larger a b))) m)
  with_max _ _ m = m

  -- mergeMetricMaps: the map `ma` as it is left.
  unfoldable pub merge_metric_maps : Map → Map → Result Map
  unfolding accounting_agrees with_max paired_float
  merge_metric_maps ma mb = do
    accounting_agrees accounting_keys ma mb
    ok (
        with_max (paired_float (at "prefill_engine_ms" ma))
          (paired_float (at "prefill_engine_ms" mb)) ma)

  abbrev merge_found : String → Map → Option Map → Option Map → Result String
  merge_found a va (some ma) (some mb) = do
    merged ← merge_metric_maps ma mb
    c.encode (object (from_members (insert "metrics" (object (from_members merged)) va)))
  merge_found a va _ _ = ok a

  -- mergePairedTimingMetrics
  unfoldable pub merge_paired_timing_metrics : String → String → Result String
  unfolding merge_metric_maps
  merge_paired_timing_metrics a b = do
    va ← paired_object c a
    vb ← paired_object c b
    merge_found a va (as_map (at "metrics" va)) (as_map (at "metrics" vb))

  abbrev no_data : String → Bool
  no_data d = d == "" || d == "[DONE]"

  abbrev metrics_of : Result Map → Option Map
  metrics_of (ok v) = as_map (at "metrics" v)
  metrics_of (err e) = none

  abbrev first_of : Option Map → Option Map → Option Map
  first_of none next = next
  first_of (some m) next = some m

  unfoldable pub metrics_in : List String → Option Map
  unfolding sse_frame_data
  metrics_in [] = none
  metrics_in (frame ∷ frames) =
      let d = sse_frame_data frame in
      let rest = metrics_in frames in
      if no_data d then rest else first_of (metrics_of (paired_object c d)) rest

  -- terminalMetrics
  unfoldable pub terminal_metrics : String → Option Map
  unfolding metrics_in
  terminal_metrics blob = metrics_in (split_frames blob)

  abbrev kept_frame : String → Result (List String) → Result (List String)
  kept_frame frame rest = do frames ← rest; ok (frame ∷ frames)

  abbrev merged_frame : Map → Map → List String → Map → Result (List String)
  merged_frame ma mb frames v = do
    merged ← merge_metric_maps ma mb
    encoded ← c.encode (object (from_members (insert "metrics" (object (from_members merged)) v)))
    ok (sprint ("data: " ∷ encoded ∷ []) ∷ frames)

  abbrev frame_with :
      Map → String → List String → Result (List String) → Result Map → Result (List String)
  frame_with mb frame frames rest (err e) = kept_frame frame rest
  frame_with mb frame frames rest (ok v) = elim (as_map (at "metrics" v)) [
    | none ↦ kept_frame frame rest
    | some ma ↦ merged_frame ma mb frames v
  ]

  -- The first frame that carries metrics is replaced; the others stay.
  unfoldable pub merge_frames : Map → List String → Result (List String)
  unfolding sse_frame_data merge_metric_maps
  merge_frames mb [] = ok []
  merge_frames mb (frame ∷ frames) =
      let d = sse_frame_data frame in
      let rest = merge_frames mb frames in
      if no_data d
      then kept_frame frame rest
      else frame_with mb frame frames rest (paired_object c d)

  abbrev merge_terminal : String → Option Map → Result String
  merge_terminal a none = ok a
  merge_terminal a (some mb) = do frames ← merge_frames mb (split_frames a); ok (join "\n\n" frames)

  -- mergePairedSSETerminalMetrics
  unfoldable pub merge_paired_sse_terminal_metrics : String → String → Result String
  unfolding terminal_metrics merge_frames
  merge_paired_sse_terminal_metrics a b = merge_terminal a (terminal_metrics b)
