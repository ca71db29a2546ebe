-- ===== src/Paired/Steps.antt =====
-- paired.go: the backend among its requests, its jobs, a shutdown (serveNativePairUntil of
-- cli_extra.go) and the other processes that take pair.lock, as a relation of steps.
pub mod Invariant
pub mod Progress
pub mod Origin
pub mod Safety
pub mod Poison
use strix_halo_cluster_glm.Base.{
  String, List, [], ◌∷◌, ◌++◌, ◌≡◌, Bool, true, false, Option, none, some, Result, ok, err, ◌==◌,
  All,
}
use strix_halo_cluster_glm.Json.{deep_equal}
use strix_halo_cluster_glm.Paired.Payload.{Codec}
use strix_halo_cluster_glm.Paired.Job.{
  RankResult, Reply, Stage, collecting, failing, settling, merging, unlocking, releasing, Job,
  Backend, Disk, admit, stop_admission, fail, answer, put_stage, IsNamed, Work,
}

abbrev pub shutdown_reason : String
shutdown_reason = "native frontend shutdown deadline; whole-pair restart required"

-- The controller's `stop` archives the marker while it holds pair.lock.
pub data Step (c : Codec) : Backend → Backend → Type 0 where
  admission : {s : Backend} (stream : Bool) (d : Disk) → Step c s (admit stream d s).1
  shutdown : {s : Backend} → Step c s (stop_admission s)
  expired : {s : Backend} (wrote : Bool) → Step c s (fail shutdown_reason wrote s)
  locked :
      {s : Backend} → s.held ≡ false → s.outside ≡ false → Step c s (record s { outside = true })
  unlocked : {s : Backend} → Step c s (record s { outside = false })
  archived : {s : Backend} → s.outside ≡ true → Step c s (record s { marker = false })
  worked :
      {s : Backend} {x : Stage × Backend} (before : List Job) (j : Job) (after : List Job)
      → s.jobs ≡ before ++ j ∷ after
      → Work c j.stream j.stage s x
      → Step c s (put_stage before j after x)
  -- the end of the goroutine, behind which the job is gone
  finished :
      {s : Backend} (before : List Job) (j : Job) (after : List Job) (r : Result Reply)
      → s.jobs ≡ before ++ j ∷ after
      → j.stage ≡ releasing r
      → Step c s (record s { busy = false; jobs = before ++ after })

pub data Steps (c : Codec) : Backend → Backend → Type 0 where
  no_step : {s : Backend} → Steps c s s
  and_step : {s t u : Backend} → Steps c s t → Step c t u → Steps c s u

-- NewPairedBackend, on a state directory with or without a marker.
unfoldable pub new_backend : Bool → Backend
new_backend marker = record {
  busy = false;
  poison = if_marked marker;
  closing = false;
  marker = marker;
  held = false;
  outside = false;
  jobs = [];
}
  where
    if_marked : Bool → String
    if_marked true = "persistent in-flight/poison marker: whole-pair restart required"
    if_marked false = ""
