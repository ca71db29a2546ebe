-- ===== src/Paired/Steps/Safety.antt =====
-- One job at a time, under the lock and behind the marker.
use strix_halo_cluster_glm.Base.{
  List, ◌≤◌, length, [], ◌∷◌, ◌++◌, ◌≡◌, refl, subst, ◌↔◌, arith, Bool, true, false, Option,
}
use strix_halo_cluster_glm.Paired.Payload.{Codec}
use strix_halo_cluster_glm.Paired.Job.{RankResult, collecting, Job, Backend}
use strix_halo_cluster_glm.Paired.Steps.{Steps, new_backend}
use strix_halo_cluster_glm.Paired.Steps.Invariant.{IsPoisoned, StageInv, JobsInv}
use strix_halo_cluster_glm.Paired.Steps.Progress.{lone, reached-Inv}

module _ (c : Codec) where
  -- Whatever requests, jobs, shutdowns and other processes do, there is at most one job, and the
  -- backend is busy exactly while there is one.
  pub one_job :
      (marker : Bool) (s : Backend)
      → Steps c (new_backend marker) s
      → (length s.jobs ≤ 1) × ((s.busy ≡ true) ↔ (length s.jobs ≡ 1))
  one_job marker s path = on_jobs s.jobs (reached-Inv c marker s path).jobs
    where
      on_jobs :
          (js : List Job) → JobsInv c js s → (length js ≤ 1) × ((s.busy ≡ true) ↔ (length js ≡ 1))
      on_jobs [] i = (omega arith, ((λ b. cc), (λ e. absurd (omega arith))))
      on_jobs (j ∷ []) i = (omega arith, ((λ b. refl), (λ e. i.0)))
      on_jobs (j ∷ k ∷ js) i = absurd i

  -- While a job waits for a result of a rank, the marker is on the disk, and pair.lock is held by
  -- the backend and by no other process.
  pub in_flight :
      (marker : Bool) (s : Backend) (before : List Job) (j : Job) (after : List Job)
      (a b : Option RankResult)
      → Steps c (new_backend marker) s
      → s.jobs ≡ before ++ j ∷ after
      → j.stage ≡ collecting a b
      → (s.marker ≡ true) × (s.held ≡ true) × (s.outside ≡ false)
  in_flight marker s before j after a b path e collects =
      let v = reached-Inv c marker s path in
      let (_, _, _, stage) = lone c s before j after (subst (λ js. JobsInv c js s) e v.jobs) in
      let (held, marked, _, _) = subst (λ t. StageInv c t s) collects stage in
      (marked, held, ground (arith, v.alone, held))

  -- A marker that is on the disk while there is no job has poisoned the backend.
  pub marker-IsPoisoned :
      (marker : Bool) (s : Backend)
      → Steps c (new_backend marker) s
      → s.jobs ≡ []
      → s.marker ≡ true
      → IsPoisoned s
  marker-IsPoisoned marker s path none_there =
      (subst (λ js. JobsInv c js s) none_there (reached-Inv c marker s path).jobs).2
