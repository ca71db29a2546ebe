-- ===== src/Paired/Steps/Poison.antt =====
-- A poisoned backend stays poisoned, and admits nothing.
use strix_halo_cluster_glm.Base.{
  String, List, ◌≤◌, length, [], ◌∷◌, ◌++◌, ◌≡◌, refl, sym, ap, subst, arith, Bool, true, false,
  not, Option, none, some, Result, ◌==◌, if_cases,
}
use strix_halo_cluster_glm.Paired.Payload.{Codec}
use strix_halo_cluster_glm.Paired.Job.{
  RankResult, Stage, Job, Backend, Disk, Answer, Work, first_received, second_received, deadline,
  reported, cleared, merged, released, admit, stop_admission, fail, fail_with, settle,
}
use strix_halo_cluster_glm.Paired.Steps.{
  Step, admission, shutdown, expired, locked, unlocked, archived, worked, finished, Steps, no_step,
  and_step, new_backend,
}
use strix_halo_cluster_glm.Paired.Steps.Invariant.{IsPoisoned, IsError, StageInv, JobsInv, Inv}
use strix_halo_cluster_glm.Paired.Steps.Progress.{lone, reached-Inv, Step-Inv, prefixed-IsError}

module _ (c : Codec) where
  fail_with-IsPoisoned :
      (s : Backend) (e : Option String) (wrote : Bool)
      → IsError e
      → IsPoisoned s
      → IsPoisoned (fail_with e wrote s)
  unfolding fail
  fail_with-IsPoisoned s none wrote n p = p
  fail_with-IsPoisoned s (some e) wrote n p = n

  settle-IsPoisoned :
      (s : Backend) (a b : RankResult) (removal sync : Result (Unit {0}))
      → IsPoisoned s
      → IsPoisoned (settle a b removal sync s).1
  unfolding settle
  settle-IsPoisoned s a b removal sync p = rw (p, p)

  Work-IsPoisoned :
      (stream : Bool) (t : Stage) (s : Backend) (x : Stage × Backend)
      → StageInv c t s
      → Work c stream t s x
      → IsPoisoned s
      → IsPoisoned x.1
  unfolding fail
  Work-IsPoisoned stream t s x i (first_received wrote r) p =
      fail_with-IsPoisoned s _ wrote (prefixed-IsError c false r.error) p
  Work-IsPoisoned stream t s x i (second_received wrote r) p =
      fail_with-IsPoisoned s _ wrote (prefixed-IsError c true r.error) p
  Work-IsPoisoned stream t s x i deadline p = p
  Work-IsPoisoned stream t s x i (reported wrote) p = i.1
  Work-IsPoisoned stream t s x i (cleared {a} {b} removal sync n) p =
      settle-IsPoisoned s a b removal sync p
  Work-IsPoisoned stream t s x i (merged slow) p = p
  Work-IsPoisoned stream t s x i released p = p

  -- Poisoned, with no more jobs than before.
  abbrev Stays : Backend → Backend → Type 0
  Stays s s' = IsPoisoned s' × (length s'.jobs ≤ length s.jobs)

  admit-poisoned :
      (s : Backend) (stream : Bool) (d : Disk) → IsPoisoned s → (admit stream d s).1 ≡ s
  unfolding admit
  admit-poisoned s stream d p =
      let P = λ (x : Answer × Backend). x.1 ≡ s in
      if_cases P s.closing _ _ (λ _. refl)
        (λ _.
          if_cases P (not (s.poison == "")) _ _ (λ _. refl) (λ q. absurd (ground (arith, p, q))))

  length-middle :
      (before : List Job) (j k : Job) (after : List Job)
      → length (before ++ j ∷ after) ≡ length (before ++ k ∷ after)
  length-middle [] j k after = refl
  length-middle (b ∷ before) j k after = omega (arith, length-middle before j k after)

  length-removed :
      (before : List Job) (j : Job) (after : List Job)
      → length (before ++ after) ≤ length (before ++ j ∷ after)
  length-removed [] j after = omega arith
  length-removed (b ∷ before) j after = omega (arith, length-removed before j after)

  Step-Stays : (s s' : Backend) → Inv c s → IsPoisoned s → Step c s s' → Stays s s'
  unfolding stop_admission fail
  Step-Stays s s' v p (admission stream d) =
      subst (Stays s) (sym (admit-poisoned s stream d p)) (p, omega arith)
  Step-Stays s s' v p shutdown = (p, omega arith)
  Step-Stays s s' v p (expired wrote) = (refl, omega arith)
  Step-Stays s s' v p (locked held outside) = (p, omega arith)
  Step-Stays s s' v p unlocked = (p, omega arith)
  Step-Stays s s' v p (archived outside) = (p, omega arith)
  Step-Stays s s' v p (worked {x = x} before j after e work) =
      let (_, _, _, stage) = lone c s before j after (subst (λ js. JobsInv c js s) e v.jobs) in
      (
        Work-IsPoisoned j.stream j.stage s x stage work p,
        omega (arith, length-middle before j (record j { stage = x.0 }) after, ap length e),
      )
  Step-Stays s s' v p (finished before j after r e at_end) =
      (p, omega (arith, length-removed before j after, ap length e))

  Steps-Stays : (s t : Backend) → Inv c s → IsPoisoned s → Steps c s t → Inv c t × Stays s t
  Steps-Stays s t v p no_step = (v, (p, omega arith))
  Steps-Stays s t v p (and_step {t = m} path last) =
      let (w, (q, fewer)) = Steps-Stays s m v p path in
      let (q', fewer') = Step-Stays m t w q last in
      (Step-Inv c m t w last, (q', omega (arith, fewer, fewer')))

  -- A backend that is poisoned stays so through every sequence of steps, until the process ends, and
  -- admits no job.
  pub poison_stays :
      (marker : Bool) (s t : Backend)
      → Steps c (new_backend marker) s
      → IsPoisoned s
      → Steps c s t
      → IsPoisoned t × (length t.jobs ≤ length s.jobs)
  poison_stays marker s t reached p path =
      (Steps-Stays s t (reached-Inv c marker s reached) p path).1
