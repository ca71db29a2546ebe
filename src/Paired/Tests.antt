-- ===== src/Paired/Tests.antt =====
-- A job of the paired backend from its admission to its answer, on a small codec.
use strix_halo_cluster_glm.Base.{
  [], ◌∷◌, ℕ, ◌≤◌, length, ◌≡◌, refl, ◌↔◌, Bool, true, false, none, some, ok, ltb, lookup,
}
use strix_halo_cluster_glm.Json.{text, object, no_member, deep_equal}
use strix_halo_cluster_glm.Paired.Payload.{Codec, paired_object}
use strix_halo_cluster_glm.Paired.Metrics.{merge_metric_maps, merge_paired_timing_metrics}
use strix_halo_cluster_glm.Paired.Job.{
  RankResult, Reply, Stage, collecting, settling, merging, unlocking, releasing, Job, Backend, Disk,
  first_received, second_received, cleared, merged, released, admit, answer, settle, fail,
}
use strix_halo_cluster_glm.Paired.Steps.{
  admission, worked, expired, Steps, no_step, and_step, new_backend,
}
use strix_halo_cluster_glm.Paired.Steps.Invariant.{IsAgreed, IsPoisoned}
use strix_halo_cluster_glm.Paired.Steps.Safety.{one_job, in_flight, marker-IsPoisoned}
use strix_halo_cluster_glm.Paired.Metrics.Merge.{
  Agrees, merge_metric_maps-Agrees, at-merge_metric_maps,
}
use strix_halo_cluster_glm.Paired.Steps.Origin.{sent_on, IsMade, answer-IsSound}
use strix_halo_cluster_glm.Json.{Map, at, number}
use strix_halo_cluster_glm.Base.{ne_of_test, insert}
use strix_halo_cluster_glm.Paired.Steps.Poison.{poison_stays}

abbrev codec : Codec
codec = record {
  decode = λ s. ok (object no_member);
  encode = λ v. ok "{}";
  atoi = λ s. some 0;
  Float = ℕ;
  parse_float = λ s. some 8;
  float_less = ltb;
  format_float = λ n. "1";
}

abbrev disk : Disk
disk = record { open_lock = ok tt; flock = ok tt; create = ok tt; persist = ok tt }

abbrev rank_result : RankResult
rank_result = record { body = "{}"; output = text "hi"; terminal = ""; error = none }

abbrev job : Stage → Job
job stage = record { stream = false; stage = stage }

-- The backend with one job, on the marker and the lock.
abbrev with_job : Bool → Bool → Stage → Backend
with_job marker held stage = record {
  busy = true;
  poison = "";
  closing = false;
  marker = marker;
  held = held;
  outside = false;
  jobs = job stage ∷ [];
}

abbrev reply : Reply
reply = record { body = "{}"; terminal = "" }

admitted_path : Steps codec (new_backend false) (with_job true true (collecting none none))
unfolding admit new_backend
admitted_path = and_step no_step (admission false disk)

answered_path : Steps codec (new_backend false) (with_job false false (releasing (ok reply)))
unfolding deep_equal settle answer merge_paired_timing_metrics paired_object lookup
answered_path =
    let p₁ : Steps codec (new_backend false)
        (with_job true true (collecting (some rank_result) none)) =
      and_step admitted_path
        (worked [] (job (collecting none none)) [] refl (first_received true rank_result)) in
    let p₂ : Steps codec (new_backend false)
        (with_job true true (settling rank_result rank_result)) =
      and_step p₁ (
        worked [] (job (collecting (some rank_result) none)) [] refl
          (second_received true rank_result)) in
    let p₃ : Steps codec (new_backend false)
        (with_job false true (merging rank_result rank_result)) =
      and_step p₂
        (worked [] (job (settling rank_result rank_result)) [] refl (cleared (ok tt) (ok tt) tt)) in
    let p₄ : Steps codec (new_backend false) (with_job false true (unlocking (ok reply))) =
      and_step p₃ (worked [] (job (merging rank_result rank_result)) [] refl (merged false)) in
    and_step p₄ (worked [] (job (unlocking (ok reply))) [] refl released)

abbrev answered : Backend
answered = with_job false false (releasing (ok reply))

one_job_example : (length answered.jobs ≤ 1) × ((answered.busy ≡ true) ↔ (length answered.jobs ≡ 1))
one_job_example = one_job codec false answered answered_path

answer-IsSound_example :
    (a b : RankResult) × (sent_on codec answered_path ≡ (some a, some b))
    × IsAgreed a b
    × IsMade codec false a b reply
answer-IsSound_example =
    answer-IsSound codec false answered [] (job (releasing (ok reply))) [] reply answered_path refl
      refl

in_flight_example : (Bool.true ≡ true) × (Bool.true ≡ true) × (Bool.false ≡ false)
in_flight_example =
    in_flight codec false (with_job true true (collecting none none)) []
      (job (collecting none none)) [] none none admitted_path refl refl

marker-IsPoisoned_example : IsPoisoned (new_backend true)
unfolding new_backend
marker-IsPoisoned_example = marker-IsPoisoned codec true (new_backend true) no_step refl refl

-- A marker that a start finds, and a shutdown behind it.
poison_stays_example :
    IsPoisoned (
      fail "native frontend shutdown deadline; whole-pair restart required" true (new_backend true))
    × (length (new_backend true).jobs ≤ length (new_backend true).jobs)
unfolding fail new_backend
poison_stays_example =
    poison_stays codec true (new_backend true)
      (fail "native frontend shutdown deadline; whole-pair restart required" true
        (new_backend true))
      no_step refl (and_step no_step (expired true))

abbrev metrics : Map
metrics = ("prompt_tokens_cached", number "3") ∷ ("prefill_engine_ms", number "8") ∷ []

abbrev pair_metrics : Map
pair_metrics =
    ("prompt_tokens_cached", number "3")
    ∷ ("prefill_engine_ms", number "8")
    ∷ ("pair_prefill_engine_ms_max", number "1")
    ∷ ("pair_prefill_scope", text "max_rank")
    ∷ []

metrics_merged : merge_metric_maps codec metrics metrics ≡ ok pair_metrics
unfolding merge_metric_maps at lookup deep_equal insert
metrics_merged = refl

merge_metric_maps-Agrees_example :
    Agrees metrics metrics "prompt_tokens_computed"
    × Agrees metrics metrics "prompt_tokens_cached"
    × Agrees metrics metrics "prompt_tokens_local_cache"
    × Agrees metrics metrics "prompt_tokens_external_cache"
    × Agrees metrics metrics "prompt_tokens_cache_creation"
merge_metric_maps-Agrees_example =
    merge_metric_maps-Agrees codec metrics metrics pair_metrics metrics_merged

at-merge_metric_maps_example :
    at "prompt_tokens_cached" pair_metrics ≡ at "prompt_tokens_cached" metrics
at-merge_metric_maps_example =
    at-merge_metric_maps codec metrics metrics pair_metrics "prompt_tokens_cached" metrics_merged
      (ne_of_test "prompt_tokens_cached" "pair_prefill_engine_ms_max" refl)
      (ne_of_test "prompt_tokens_cached" "pair_prefill_scope" refl)
