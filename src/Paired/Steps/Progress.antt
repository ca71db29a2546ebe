-- ===== src/Paired/Steps/Progress.antt =====
-- The steps of a job keep the invariant, and so does every step.
use strix_halo_cluster_glm.Base.{
  String, List, [], ◌∷◌, ◌++◌, ◌≡◌, refl, sym, ◌∙◌, subst, arith, Bool, true, false, not, ◌&&◌,
  Option, none, some, Result, ok, err, ◌==◌, if_cases, sprint-ne-empty,
}
use strix_halo_cluster_glm.Json.{deep_equal}
use strix_halo_cluster_glm.Paired.Payload.{Codec}
use strix_halo_cluster_glm.Paired.Job.{
  RankResult, Reply, Stage, releasing, Job, Backend, Work, first_received, second_received,
  deadline, reported, cleared, merged, released, IsNamed, fail, judged, verdict, compared, named,
  prefixed, fail_with, settle, put_stage, removed, synced,
}
use strix_halo_cluster_glm.Paired.Steps.{
  Step, admission, shutdown, expired, locked, unlocked, archived, worked, finished, Steps, no_step,
  and_step, new_backend, shutdown_reason,
}
use strix_halo_cluster_glm.Paired.Steps.Invariant.{
  IsAgreed, IsError, IsReceived, StageInv, JobsInv, Inv, StageInv-map, JobsInv-map,
  stop_admission-Inv, fail-Inv, archived-Inv, admit-Inv,
}

module _ (c : Codec) where
  -- What a step of a job leaves behind, before the other jobs are put around it.
  abbrev Kept : Backend → Stage × Backend → Type 0
  Kept s (t, s') =
      StageInv c t s' × (s'.busy ≡ s.busy) × (s'.jobs ≡ s.jobs) × ((s'.held && s'.outside) ≡ false)

  pub prefixed-IsError : (second : Bool) (e : Option String) → IsError (prefixed second e)
  prefixed-IsError second none = tt
  prefixed-IsError false (some e) = sprint-ne-empty "rank0: " (e ∷ []) refl
  prefixed-IsError true (some e) = sprint-ne-empty "rank1: " (e ∷ []) refl

  compared-StageInv :
      (s : Backend) (a b : RankResult) (same : Bool)
      → s.held ≡ true
      → s.marker ≡ true
      → a.error ≡ none
      → b.error ≡ none
      → deep_equal a.output b.output ≡ same
      → StageInv c (compared a b same) s
  compared-StageInv s a b true h m p q e = (h, m, record { first = p; second = q; same = e })
  compared-StageInv s a b false h m p q e = (h, refl)

  verdict-StageInv :
      (s : Backend) (a b : RankResult) (x y : Option String)
      → s.held ≡ true
      → s.marker ≡ true
      → a.error ≡ x
      → b.error ≡ y
      → IsError x
      → IsError y
      → StageInv c (verdict a b x y) s
  verdict-StageInv s a b (some e) y h m p q i j = (h, i)
  verdict-StageInv s a b none (some e) h m p q i j = (h, j)
  verdict-StageInv s a b none none h m p q i j = compared-StageInv s a b _ h m p q refl

  judged-StageInv :
      (s : Backend) (a b : Option RankResult)
      → s.held ≡ true
      → s.marker ≡ true
      → IsReceived a
      → IsReceived b
      → StageInv c (judged a b) s
  judged-StageInv s (some a) (some b) h m i j = verdict-StageInv s a b _ _ h m refl refl i j
  judged-StageInv s (some a) none h m i j = (h, m, i, j)
  judged-StageInv s none b h m i j = (h, m, i, j)

  received-Kept :
      (s : Backend) (a b : Option RankResult) (e : Option String) (wrote : Bool)
      → s.held ≡ true
      → s.marker ≡ true
      → IsReceived a
      → IsReceived b
      → (s.held && s.outside) ≡ false
      → Kept s (judged a b, fail_with e wrote s)
  unfolding fail
  received-Kept s a b none wrote h m i j v = (judged-StageInv s a b h m i j, refl, refl, v)
  received-Kept s a b (some e) wrote h m i j v =
      (judged-StageInv (fail e wrote s) a b h (ground arith) i j, refl, refl, v)

  settle-Kept :
      (s : Backend) (a b : RankResult) (removal sync : Result (Unit {0}))
      → IsNamed sync
      → s.held ≡ true
      → IsAgreed a b
      → (s.held && s.outside) ≡ false
      → Kept s (settle a b removal sync s)
  unfolding settle
  settle-Kept s a b removal sync n h agreed v =
      if_cases (Kept s) (not (s.poison == "")) _ _ (λ p. ((h, ground arith), refl, refl, v))
        (λ p. on_removal _)
    where
      on_removal : (r : Result (Unit {0})) → Kept s (removed a b r sync s)
      on_removal (err e) =
          ((h, sprint-ne-empty "cannot clear completed pair marker: " (e ∷ []) refl), refl, refl, v)
      on_removal (ok _) = (on_sync sync n, refl, refl, v)
        where
          on_sync :
              (r : Result (Unit {0}))
              → IsNamed r
              → StageInv c (synced a b r) (record s { marker = false })
          on_sync (ok _) n = (h, (λ m. cc), agreed)
          on_sync (err e) n = (h, n)

  Work-Kept :
      (stream : Bool) (t : Stage) (s : Backend) (x : Stage × Backend)
      → StageInv c t s
      → (s.held && s.outside) ≡ false
      → Work c stream t s x
      → Kept s x
  unfolding fail
  Work-Kept stream t s x i v (first_received wrote r) =
      received-Kept s (some (named false r)) _ _ wrote i.0 i.1 (prefixed-IsError false r.error) i.3
        v
  Work-Kept stream t s x i v (second_received wrote r) =
      received-Kept s _ (some (named true r)) _ wrote i.0 i.1 i.2 (prefixed-IsError true r.error) v
  Work-Kept stream t s x i v deadline = ((i.0, refl), refl, refl, v)
  Work-Kept stream t s x i v (reported wrote) = ((i.0, λ m. i.1), refl, refl, v)
  Work-Kept stream t s x i v (cleared {a} {b} removal sync n) =
      settle-Kept s a b removal sync n i.0 i.2 v
  Work-Kept stream t s x i v (merged {a} {b} slow) = ((i.0, i.1), refl, refl, v)
  Work-Kept stream t s x i v released = ((refl, i.1), refl, refl, refl)

  -- A job that is there is the only one.
  pub lone :
      (s : Backend) (before : List Job) (j : Job) (after : List Job)
      → JobsInv c (before ++ j ∷ after) s
      → (before ≡ []) × (after ≡ []) × (s.busy ≡ true) × StageInv c j.stage s
  lone s [] j [] i = (refl, refl, i.0, i.1)
  lone s [] j (k ∷ ks) i = absurd i
  lone s (k ∷ []) j after i = absurd i
  lone s (k ∷ l ∷ ks) j after i = absurd i

  worked-Inv :
      (s : Backend) (x : Stage × Backend) (before : List Job) (j : Job) (after : List Job)
      → s.jobs ≡ before ++ j ∷ after
      → Work c j.stream j.stage s x
      → Inv c s
      → Inv c (put_stage before j after x)
  worked-Inv s x before j after e work v =
      let (none_before, none_after, busy, stage) =
        lone s before j after (subst (λ js. JobsInv c js s) e v.jobs) in
      let (stage', same, _, alone) = Work-Kept j.stream j.stage s x stage v.alone work in
      record {
        jobs =
            subst
              (λ l. JobsInv c (l ++ record j { stage = x.0 } ∷ after) (put_stage before j after x))
              (sym none_before)
              (subst (λ l. JobsInv c (record j { stage = x.0 } ∷ l) (put_stage before j after x))
                (sym none_after)
                (same ∙ busy, StageInv-map c x.1 _ x.0 refl (λ m. m) (λ p. p) stage'));
        alone = alone;
      }

  finished-Inv :
      (s : Backend) (before : List Job) (j : Job) (after : List Job) (r : Result Reply)
      → s.jobs ≡ before ++ j ∷ after
      → j.stage ≡ releasing r
      → Inv c s
      → Inv c (record s { busy = false; jobs = before ++ after })
  finished-Inv s before j after r e at_end v =
      let s' = record s { busy = false; jobs = before ++ after } in
      let (none_before, none_after, busy, stage) =
        lone s before j after (subst (λ js. JobsInv c js s) e v.jobs) in
      let (held, marked) = subst (λ t. StageInv c t s) at_end stage in
      record {
        jobs =
            subst (λ l. JobsInv c (l ++ after) s') (sym none_before)
              (subst (λ l. JobsInv c l s') (sym none_after) (refl, held, marked));
        alone = v.alone;
      }

  pub Step-Inv : (s s' : Backend) → Inv c s → Step c s s' → Inv c s'
  Step-Inv s s' v (admission stream d) = admit-Inv c s stream d v
  Step-Inv s s' v shutdown = stop_admission-Inv c s v
  Step-Inv s s' v (expired wrote) = fail-Inv c s shutdown_reason wrote refl v
  Step-Inv s s' v (locked held outside) = record {
    jobs = JobsInv-map c s s' s.jobs refl refl (λ m. m) (λ p. p) v.jobs;
    alone = ground arith;
  }
  Step-Inv s s' v unlocked = record {
    jobs = JobsInv-map c s s' s.jobs refl refl (λ m. m) (λ p. p) v.jobs;
    alone = ground arith;
  }
  Step-Inv s s' v (archived outside) = archived-Inv c s outside v
  Step-Inv s s' v (worked before j after e work) = worked-Inv s _ before j after e work v
  Step-Inv s s' v (finished before j after r e at_end) = finished-Inv s before j after r e at_end v

  pub new_backend-Inv : (marker : Bool) → Inv c (new_backend marker)
  unfolding new_backend
  new_backend-Inv true = record { jobs = (refl, refl, λ m. refl); alone = refl }
  new_backend-Inv false = record { jobs = (refl, refl, λ m. cc); alone = refl }

  pub Steps-Inv : (s s' : Backend) → Inv c s → Steps c s s' → Inv c s'
  Steps-Inv s s' v no_step = v
  Steps-Inv s s' v (and_step {t = t} before last) = Step-Inv t s' (Steps-Inv s t v before) last

  pub reached-Inv : (marker : Bool) (s : Backend) → Steps c (new_backend marker) s → Inv c s
  reached-Inv marker s path = Steps-Inv (new_backend marker) s (new_backend-Inv marker) path
