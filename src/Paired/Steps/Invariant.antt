-- ===== src/Paired/Steps/Invariant.antt =====
-- What holds of the backend in every state that it reaches.
use strix_halo_cluster_glm.Base.{
  String, List, [], ◌∷◌, ◌++◌, ◌≡◌, refl, sym, ◌∙◌, subst, arith, Bool, true, false, not, ◌&&◌,
  ◌||◌, Option, none, some, Result, ok, err, ◌==◌, if_cases,
}
use strix_halo_cluster_glm.Json.{deep_equal}
use strix_halo_cluster_glm.Paired.Payload.{Codec}
use strix_halo_cluster_glm.Paired.Job.{
  RankResult, Stage, collecting, failing, settling, merging, unlocking, releasing, Job, Backend,
  Disk, Answer, admit, stop_admission, fail, opened, flocked, created, persisted, fresh_job,
}

abbrev pub IsPoisoned : Backend → Type 0
IsPoisoned s = (s.poison == "") ≡ false

-- Both ranks ended without an error and generated the same output.
pub record IsAgreed (a b : RankResult) : Type 0 where
  pub first : a.error ≡ none
  pub second : b.error ≡ none
  pub same : deep_equal a.output b.output ≡ true

-- The error of a rank is not empty.
abbrev pub IsError : Option String → Type 0
IsError none = Unit
IsError (some e) = (e == "") ≡ false

abbrev pub IsReceived : Option RankResult → Type 0
IsReceived none = Unit
IsReceived (some r) = IsError r.error

-- A marker that stands here has its poison.
abbrev pub IsMarked : Backend → Type 0
IsMarked s = s.marker ≡ true → IsPoisoned s

abbrev pub StageInv : Codec → Stage → Backend → Type 0
StageInv c (collecting a b) s = (s.held ≡ true) × (s.marker ≡ true) × IsReceived a × IsReceived b
StageInv c (failing e) s = (s.held ≡ true) × ((e == "") ≡ false)
StageInv c (settling a b) s = (s.held ≡ true) × (s.marker ≡ true) × IsAgreed a b
StageInv c (merging a b) s = (s.held ≡ true) × IsMarked s × IsAgreed a b
StageInv c (unlocking r) s = (s.held ≡ true) × IsMarked s
StageInv c (releasing r) s = (s.held ≡ false) × IsMarked s

abbrev pub JobsInv : Codec → List Job → Backend → Type 0
JobsInv c [] s = (s.busy ≡ false) × (s.held ≡ false) × IsMarked s
JobsInv c (j ∷ []) s = (s.busy ≡ true) × StageInv c j.stage s
JobsInv c (j ∷ k ∷ js) s = ⊥

pub record Inv (c : Codec) (s : Backend) : Type 0 where
  pub jobs : JobsInv c s.jobs s
  pub alone : (s.held && s.outside) ≡ false

module _ (c : Codec) where
  pub StageInv-map :
      (s s' : Backend) (t : Stage)
      → s'.held ≡ s.held
      → (s.marker ≡ true → s'.marker ≡ true)
      → (IsMarked s → IsMarked s')
      → StageInv c t s
      → StageInv c t s'
  StageInv-map s s' (collecting a b) h m p i = (h ∙ i.0, m i.1, i.2, i.3)
  StageInv-map s s' (failing e) h m p i = (h ∙ i.0, i.1)
  StageInv-map s s' (settling a b) h m p i = (h ∙ i.0, m i.1, i.2)
  StageInv-map s s' (merging a b) h m p i = (h ∙ i.0, p i.1, i.2)
  StageInv-map s s' (unlocking r) h m p i = (h ∙ i.0, p i.1)
  StageInv-map s s' (releasing r) h m p i = (h ∙ i.0, p i.1)

  -- A step that leaves the jobs, the job's lock and `busy` alone, and no marker without its poison.
  pub JobsInv-map :
      (s s' : Backend) (js : List Job)
      → s'.busy ≡ s.busy
      → s'.held ≡ s.held
      → (s.marker ≡ true → s'.marker ≡ true)
      → (IsMarked s → IsMarked s')
      → JobsInv c js s
      → JobsInv c js s'
  JobsInv-map s s' [] b h m p i = (b ∙ i.0, h ∙ i.1, p i.2)
  JobsInv-map s s' (j ∷ []) b h m p i = (b ∙ i.0, StageInv-map s s' j.stage h m p i.1)
  JobsInv-map s s' (j ∷ k ∷ js) b h m p i = i

  pub stop_admission-Inv : (s : Backend) → Inv c s → Inv c (stop_admission s)
  unfolding stop_admission
  stop_admission-Inv s v = record {
    jobs = JobsInv-map s _ s.jobs refl refl (λ m. m) (λ p. p) v.jobs;
    alone = v.alone;
  }

  pub fail-Inv :
      (s : Backend) (reason : String) (wrote : Bool)
      → (reason == "") ≡ false
      → Inv c s
      → Inv c (fail reason wrote s)
  unfolding fail
  fail-Inv s reason wrote n v = record {
    jobs = JobsInv-map s _ s.jobs refl refl (λ m. ground arith) (λ p m. n) v.jobs;
    alone = v.alone;
  }

  -- With no job at the lock, the marker may go.
  pub archived-Inv :
      (s : Backend) → s.outside ≡ true → Inv c s → Inv c (record s { marker = false })
  archived-Inv s o v = record { jobs = on_jobs s.jobs v.jobs; alone = v.alone }
    where
      free : s.held ≡ false
      free = ground (arith, v.alone)

      on_stage : (t : Stage) → StageInv c t s → StageInv c t (record s { marker = false })
      on_stage (collecting a b) i = cc
      on_stage (failing e) i = i
      on_stage (settling a b) i = cc
      on_stage (merging a b) i = cc
      on_stage (unlocking r) i = (i.0, λ m. cc)
      on_stage (releasing r) i = (i.0, λ m. cc)

      on_jobs : (js : List Job) → JobsInv c js s → JobsInv c js (record s { marker = false })
      on_jobs [] i = (i.0, i.1, λ m. cc)
      on_jobs (j ∷ []) i = (i.0, on_stage j.stage i.1)
      on_jobs (j ∷ k ∷ js) i = i

  -- An admission with no job about.
  pub idle :
      (s : Backend) → s.busy ≡ false → Inv c s → (s.jobs ≡ []) × (s.held ≡ false) × IsMarked s
  idle s b v = on_jobs s.jobs refl v.jobs
    where
      on_jobs :
          (js : List Job)
          → s.jobs ≡ js
          → JobsInv c js s
          → (s.jobs ≡ []) × (s.held ≡ false) × IsMarked s
      on_jobs [] e i = (e, i.1, i.2)
      on_jobs (j ∷ []) e i = cc
      on_jobs (j ∷ k ∷ js) e i = absurd i

  persisted-Inv :
      (s : Backend) (stream : Bool) (r : Result (Unit {0}))
      → s.busy ≡ false
      → (s.held ≡ false) × (s.outside ≡ false)
      → Inv c s
      → Inv c (persisted stream r s).1
  persisted-Inv s stream (err e) b free v = record {
    jobs = JobsInv-map s _ s.jobs refl refl (λ m. refl) (λ p m. refl) v.jobs;
    alone = v.alone;
  }
  persisted-Inv s stream (ok _) b free v =
      let (none_yet, _, _) = idle s b v in
      record {
        jobs =
            subst
              (λ js. JobsInv c (js ++ fresh_job stream ∷ []) (record s {
                marker = true;
                busy = true;
                held = true;
                jobs = s.jobs ++ fresh_job stream ∷ [];
              }))
              (sym none_yet) (refl, (refl, refl, tt, tt));
        alone = free.1;
      }

  created-Inv :
      (s : Backend) (stream : Bool) (d : Disk) (r : Result (Unit {0}))
      → s.busy ≡ false
      → (s.held ≡ false) × (s.outside ≡ false)
      → Inv c s
      → Inv c (created stream r d s).1
  created-Inv s stream d (err e) b free v = record {
    jobs = JobsInv-map s _ s.jobs refl refl (λ m. m) (λ p m. refl) v.jobs;
    alone = v.alone;
  }
  created-Inv s stream d (ok _) b free v = persisted-Inv s stream d.persist b free v

  flocked-Inv :
      (s : Backend) (stream : Bool) (d : Disk) (r : Result (Unit {0}))
      → s.busy ≡ false
      → (s.held ≡ false) × (s.outside ≡ false)
      → Inv c s
      → Inv c (flocked stream r d s).1
  flocked-Inv s stream d (err e) b free v = v
  flocked-Inv s stream d (ok _) b free v = created-Inv s stream d _ b free v

  opened-Inv :
      (s : Backend) (stream : Bool) (d : Disk) (r : Result (Unit {0}))
      → s.busy ≡ false
      → Inv c s
      → Inv c (opened stream r d s).1
  opened-Inv s stream d (err e) b v = v
  opened-Inv s stream d (ok _) b v =
      if_cases (λ r. Inv c (flocked stream r d s).1) (s.held || s.outside) _ _ (λ t. v)
        (λ f. flocked-Inv s stream d d.flock b (ground arith, ground arith) v)

  pub admit-Inv : (s : Backend) (stream : Bool) (d : Disk) → Inv c s → Inv c (admit stream d s).1
  unfolding admit
  admit-Inv s stream d v =
      let P = λ (x : Answer × Backend). Inv c x.1 in
      if_cases P s.closing _ _ (λ _. v)
        (λ _.
          if_cases P (not (s.poison == "")) _ _ (λ _. v)
            (λ _. if_cases P s.busy _ _ (λ _. v) (λ b. opened-Inv s stream d d.open_lock b v)))
