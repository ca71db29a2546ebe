-- ===== src/Paired/Job.antt =====
-- paired.go: the backend's admission and the goroutine of a job, in steps. Each step is one section
-- under the backend's mutex with what the goroutine does on its own before the next one, so every
-- interleaving of requests, jobs, a shutdown and the controller is a sequence of such steps.
use strix_halo_cluster_glm.Base.{
  String, List, [], ◌∷◌, ◌++◌, ◌≡◌, ℕ, Bool, true, false, not, ◌||◌, Option, none, some, Result, ok,
  err, ◌==◌, sprint, if◌then◌else◌, ◌>>=◌,
}
use strix_halo_cluster_glm.Json.{Json, deep_equal}
use strix_halo_cluster_glm.Paired.Payload.{Codec}
use strix_halo_cluster_glm.Paired.Metrics.{
  merge_paired_timing_metrics, merge_paired_sse_terminal_metrics,
}

-- pairedRankResult, with the error that `drain` puts the rank's number before.
pub record RankResult : Type 0 where
  pub body : String
  pub output : Json
  pub terminal : String
  pub error : Option String

-- What the job hands on at its end: the body of the answer, and the terminal frames that it emits,
-- where there are any.
pub record Reply : Type 0 where
  pub body : String
  pub terminal : String

-- Where the goroutine of a job stands: it waits for the ranks; it is about to call `fail` with
-- its error; it is about to remove the marker; to merge; to release the lock; to reset `busy`.
pub data Stage : Type 0 where
  collecting : Option RankResult → Option RankResult → Stage
  failing : String → Stage
  settling merging : RankResult → RankResult → Stage
  unlocking releasing : Result Reply → Stage

pub record Job : Type 0 where
  pub stream : Bool
  pub stage : Stage

-- `marker` is whether pair-poison.json exists. `held` is whether a job holds pair.lock, `outside`
-- whether another process does.
pub record Backend : Type 0 where
  pub busy : Bool
  pub poison : String
  pub closing : Bool
  pub marker : Bool
  pub held : Bool
  pub outside : Bool
  pub jobs : List Job

-- What the calls of one admission on the state directory return, where nothing else decides it.
pub record Disk : Type 0 where
  pub open_lock : Result (Unit {0})
  pub flock : Result (Unit {0})
  pub create : Result (Unit {0})
  pub persist : Result (Unit {0})

pub data Answer : Type 0 where
  admitted : Answer
  refused : ℕ → String → Answer

abbrev pub fresh_job : Bool → Job
fresh_job stream = record { stream = stream; stage = collecting none none }

abbrev pub persisted : Bool → Result (Unit {0}) → Backend → Answer × Backend
persisted stream (err e) s =
    (refused 503 e, record s { marker = true; poison = "durable pair reservation failed" })
persisted stream (ok _) s = (
  admitted,
  record s { marker = true; busy = true; held = true; jobs = s.jobs ++ fresh_job stream ∷ [] },
)

abbrev reserved_before : String
reserved_before = "persistent marker/cannot reserve pair; whole-pair restart required"

abbrev pub created : Bool → Result (Unit {0}) → Disk → Backend → Answer × Backend
created stream (err e) d s = (refused 503 reserved_before, record s { poison = reserved_before })
created stream (ok _) d s = persisted stream d.persist s

abbrev pub flocked : Bool → Result (Unit {0}) → Disk → Backend → Answer × Backend
flocked stream (err e) d s = (refused 409 "pair management/admission locked", s)
-- O_EXCL: an existing marker is an error
flocked stream (ok _) d s = created stream (if s.marker then err "file exists" else d.create) d s

abbrev pub opened : Bool → Result (Unit {0}) → Disk → Backend → Answer × Backend
opened stream (err e) d s = (refused 503 e, s)
-- LOCK_NB: a lock that is held is an error
opened stream (ok _) d s =
    flocked stream (if s.held || s.outside then err "resource temporarily unavailable" else d.flock)
      d s

-- admit
unfoldable pub admit : Bool → Disk → Backend → Answer × Backend
admit stream d s =
    if s.closing
    then (refused 503 "paired backend shutting down; no new admission", s)
    else if not (s.poison == "")
    then (refused 503 s.poison, s)
    else if s.busy
    then (refused 409 "pair busy", s)
    else opened stream d.open_lock d s

-- stopAdmission
unfoldable pub stop_admission : Backend → Backend
stop_admission s = record s { closing = true }

-- fail: the marker is written where the write succeeds; its error is dropped.
unfoldable pub fail : String → Bool → Backend → Backend
fail reason wrote s = record s { poison = reason; marker = s.marker || wrote }

abbrev pub prefixed : Bool → Option String → Option String
prefixed second none = none
prefixed false (some e) = some (sprint ("rank0: " ∷ e ∷ []))
prefixed true (some e) = some (sprint ("rank1: " ∷ e ∷ []))

abbrev pub fail_with : Option String → Bool → Backend → Backend
fail_with none wrote s = s
fail_with (some e) wrote s = fail e wrote s

-- The first error of the two, or the comparison of what they have generated.
abbrev pub compared : RankResult → RankResult → Bool → Stage
compared a b true = settling a b
compared a b false = failing "rank generated outputs differ; whole-pair restart required"

abbrev pub verdict : RankResult → RankResult → Option String → Option String → Stage
verdict a b (some e) other = failing e
verdict a b none (some e) = failing e
verdict a b none none = compared a b (deep_equal a.output b.output)

abbrev pub judged : Option RankResult → Option RankResult → Stage
judged (some a) (some b) = verdict a b a.error b.error
judged a b = collecting a b

abbrev pub named : Bool → RankResult → RankResult
named second r = record r { error = prefixed second r.error }

-- The marker is gone; the directory is synced.
abbrev pub synced : RankResult → RankResult → Result (Unit {0}) → Stage
synced a b (ok _) = merging a b
synced a b (err e) = failing e

abbrev pub removed :
    RankResult → RankResult → Result (Unit {0}) → Result (Unit {0}) → Backend → Stage × Backend
removed a b (err e) sync s = (failing (sprint ("cannot clear completed pair marker: " ∷ e ∷ [])), s)
removed a b (ok _) sync s = (synced a b sync, record s { marker = false })

-- An error of the os package names the operation, so its text is not empty.
abbrev pub IsNamed : Result (Unit {0}) → Type 0
IsNamed (ok _) = Unit
IsNamed (err e) = (e == "") ≡ false

unfoldable pub settle :
    RankResult → RankResult → Result (Unit {0}) → Result (Unit {0}) → Backend → Stage × Backend
settle a b removal sync s =
    if not (s.poison == "")
    then (failing s.poison, s)
    else removed a b (if s.marker then removal else err "no such file or directory") sync s

abbrev pub if_slow : Bool → Result Reply → Result Reply
if_slow true (ok reply) = err "slow client detached; pair drained, response incomplete"
if_slow slow r = r

abbrev pub both_terminal : Codec → RankResult → RankResult → Result String
both_terminal c a b =
    if a.terminal == "" || b.terminal == ""
    then ok a.terminal
    else merge_paired_sse_terminal_metrics c a.terminal b.terminal

-- The answer to a request takes its metrics from both ranks' bodies; the end of a stream takes them
-- from both ranks' terminal frames.
unfoldable pub answer : Codec → Bool → RankResult → RankResult → Result Reply
answer c false a b = do
  body ← merge_paired_timing_metrics c a.body b.body
  ok (record { body = body; terminal = a.terminal })
answer c true a b = do
  terminal ← both_terminal c a b
  ok (record { body = a.body; terminal = terminal })

-- The steps of the goroutine. Each rank sends one result; `wrote` is whether `fail` could write the
-- marker, `slow` whether a frame found the client's queue full.
pub data Work (c : Codec) (stream : Bool) : Stage → Backend → Stage × Backend → Type 0 where
  first_received :
      {b : Option RankResult} {s : Backend} (wrote : Bool) (r : RankResult)
      → Work c stream
          (collecting none b)
          s
          (judged (some (named false r)) b, fail_with (prefixed false r.error) wrote s)
  second_received :
      {a : Option RankResult} {s : Backend} (wrote : Bool) (r : RankResult)
      → Work c stream
          (collecting a none)
          s
          (judged a (some (named true r)), fail_with (prefixed true r.error) wrote s)
  deadline :
      {a b : Option RankResult} {s : Backend}
      → Work c stream
          (collecting a b)
          s
          (failing "paired generation deadline; whole-pair restart required", s)
  reported :
      {e : String} {s : Backend} (wrote : Bool)
      → Work c stream (failing e) s (unlocking (err e), fail e wrote s)
  cleared :
      {a b : RankResult} {s : Backend} (removal sync : Result (Unit {0}))
      → IsNamed sync
      → Work c stream (settling a b) s (settle a b removal sync s)
  merged :
      {a b : RankResult} {s : Backend} (slow : Bool)
      → Work c stream (merging a b) s (unlocking (if_slow slow (answer c stream a b)), s)
  released :
      {r : Result Reply} {s : Backend}
      → Work c stream (unlocking r) s (releasing r, record s { held = false })

-- The job goes on between the others.
abbrev pub put_stage : List Job → Job → List Job → Stage × Backend → Backend
put_stage before j after (stage, s) = record s {
  jobs = before ++ record j { stage = stage } ∷ after;
}
