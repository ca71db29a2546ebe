-- ===== src/Paired/Steps/Origin.antt =====
-- Which rank results the answer of a job is made of.
use strix_halo_cluster_glm.Base.{
  arith, ◌||◌, ◌⊎◌, inl, inr, eq_iff, Bool-cases, >>=-eq-ok, ok-injective, String, List, [], ◌∷◌,
  ◌++◌, ◌≡◌, refl, sym, ap, ◌∙◌, subst, Bool, true, false, not, Option, none, some, Result, ok, err,
  ◌==◌, if_cases,
}
use strix_halo_cluster_glm.Json.{deep_equal}
use strix_halo_cluster_glm.Paired.Payload.{Codec}
use strix_halo_cluster_glm.Paired.Job.{
  RankResult, Reply, Stage, collecting, failing, settling, merging, unlocking, releasing, Job,
  Backend, Disk, Answer, Work, first_received, second_received, deadline, reported, cleared, merged,
  released, admit, both_terminal, opened, flocked, created, persisted, fresh_job, fail, answer,
  judged, verdict, compared, named, prefixed, settle, removed, synced, if_slow, stop_admission,
}
use strix_halo_cluster_glm.Paired.Metrics.{
  merge_paired_timing_metrics, merge_paired_sse_terminal_metrics,
}
use strix_halo_cluster_glm.Paired.Steps.{
  Step, admission, shutdown, expired, locked, unlocked, archived, worked, finished, Steps, no_step,
  and_step, new_backend,
}
use strix_halo_cluster_glm.Paired.Steps.Invariant.{IsAgreed, JobsInv, Inv, idle}
use strix_halo_cluster_glm.Paired.Steps.Progress.{lone, Steps-Inv, new_backend-Inv}

-- What the two ranks have sent.
abbrev pub Sent : Type 0
Sent = Option RankResult × Option RankResult

module _ (c : Codec) where
  abbrev after_work :
      {stream : Bool} {t : Stage} {s : Backend} {x : Stage × Backend}
      → Work c stream t s x
      → Sent
      → Sent
  after_work (first_received wrote r) sent = (some r, sent.1)
  after_work (second_received wrote r) sent = (sent.0, some r)
  after_work deadline sent = sent
  after_work (reported wrote) sent = sent
  after_work (cleared removal sync n) sent = sent
  after_work (merged slow) sent = sent
  after_work released sent = sent

  abbrev after_step : {s t : Backend} → Step c s t → Sent → Sent
  after_step (worked before j after e work) sent = after_work work sent
  after_step (finished before j after r e at_end) sent = (none, none)
  after_step (admission stream d) sent = sent
  after_step shutdown sent = sent
  after_step (expired wrote) sent = sent
  after_step (locked held outside) sent = sent
  after_step unlocked sent = sent
  after_step (archived outside) sent = sent

  -- What the ranks have sent on the path since the last job ended.
  unfoldable pub sent_on : {s t : Backend} → Steps c s t → Sent
  sent_on no_step = (none, none)
  sent_on (and_step before last) = after_step last (sent_on before)

  abbrev heard : Bool → Option RankResult → Option RankResult
  heard second none = none
  heard second (some r) = some (named second r)

  -- The two results, as the ranks sent them, agree.
  abbrev Agreed : Sent → RankResult → RankResult → Type 0
  Agreed sent a b = (sent ≡ (some a, some b)) × IsAgreed a b

  abbrev Answered : Bool → Sent → Result Reply → Type 0
  Answered stream sent (err e) = Unit
  Answered stream sent (ok reply) =
      (a b : RankResult) × Agreed sent a b × (answer c stream a b ≡ ok reply)

  -- How what a job holds comes from what the ranks have sent.
  abbrev Holds : Bool → Stage → Sent → Type 0
  Holds stream (collecting a b) sent = (a ≡ heard false sent.0) × (b ≡ heard true sent.1)
  Holds stream (failing e) sent = Unit
  Holds stream (settling a b) sent = Agreed sent a b
  Holds stream (merging a b) sent = Agreed sent a b
  Holds stream (unlocking r) sent = Answered stream sent r
  Holds stream (releasing r) sent = Answered stream sent r

  abbrev JobsHold : List Job → Sent → Type 0
  JobsHold [] sent = sent ≡ (none, none)
  JobsHold (j ∷ js) sent = Holds j.stream j.stage sent

  named-eq : (second : Bool) (r : RankResult) → (named second r).error ≡ none → named second r ≡ r
  named-eq second r e = ap (λ x. record r { error = x }) (e ∙ sym (go second r.error e))
    where
      go : (second : Bool) (x : Option String) → prefixed second x ≡ none → x ≡ none
      go second none e = refl
      go false (some x) e = cc
      go true (some x) e = cc

  both_eq :
      {a a' b b' : RankResult}
      → a ≡ a'
      → b ≡ b'
      → ◌≡◌ {A = Sent} (some a, some b) (some a', some b')
  both_eq p q = cc

  judged-Holds :
      (stream : Bool) (x y : Option RankResult)
      → Holds stream (judged (heard false x) (heard true y)) (x, y)
  judged-Holds stream (some a) (some b) = go (named false a).error (named true b).error refl refl
    where
      compares :
          (same : Bool)
          → deep_equal a.output b.output ≡ same
          → (named false a).error ≡ none
          → (named true b).error ≡ none
          → Holds stream (compared (named false a) (named true b) same) (some a, some b)
      compares false e p q = tt
      compares true e p q = (
        both_eq (sym (named-eq false a p)) (sym (named-eq true b q)),
        record { first = p; second = q; same = e },
      )

      go :
          (p q : Option String)
          → (named false a).error ≡ p
          → (named true b).error ≡ q
          → Holds stream (verdict (named false a) (named true b) p q) (some a, some b)
      go (some e) q h k = tt
      go none (some e) h k = tt
      go none none h k = compares _ refl h k
  judged-Holds stream (some a) none = (refl, refl)
  judged-Holds stream none (some b) = (refl, refl)
  judged-Holds stream none none = (refl, refl)

  settle-Holds :
      (stream : Bool) (sent : Sent) (a b : RankResult) (removal sync : Result (Unit {0}))
      (s : Backend)
      → Agreed sent a b
      → Holds stream (settle a b removal sync s).0 sent
  unfolding settle
  settle-Holds stream sent a b removal sync s agreed =
      if_cases (λ (x : Stage × Backend). Holds stream x.0 sent) (not (s.poison == "")) _ _ (λ _. tt)
        (λ _. on_removal _)
    where
      on_sync : (r : Result (Unit {0})) → Holds stream (synced a b r) sent
      on_sync (ok _) = agreed
      on_sync (err e) = tt

      on_removal : (r : Result (Unit {0})) → Holds stream (removed a b r sync s).0 sent
      on_removal (ok _) = on_sync sync
      on_removal (err e) = tt

  if_slow-Answered :
      (stream slow : Bool) (sent : Sent) (a b : RankResult) (r : Result Reply)
      → Agreed sent a b
      → answer c stream a b ≡ r
      → Answered stream sent (if_slow slow r)
  if_slow-Answered stream true sent a b (ok reply) g e = tt
  if_slow-Answered stream true sent a b (err x) g e = tt
  if_slow-Answered stream false sent a b (ok reply) g e = (a, b, g, e)
  if_slow-Answered stream false sent a b (err x) g e = tt

  Work-Holds :
      (stream : Bool) (t : Stage) (s : Backend) (x : Stage × Backend) (sent : Sent)
      (work : Work c stream t s x)
      → Holds stream t sent
      → Holds stream x.0 (after_work work sent)
  Work-Holds stream t s x sent (first_received wrote r) i =
      subst (λ b. Holds stream (judged (some (named false r)) b) (some r, sent.1)) (sym i.1)
        (judged-Holds stream (some r) sent.1)
  Work-Holds stream t s x sent (second_received wrote r) i =
      subst (λ a. Holds stream (judged a (some (named true r))) (sent.0, some r)) (sym i.0)
        (judged-Holds stream sent.0 (some r))
  Work-Holds stream t s x sent deadline i = tt
  Work-Holds stream t s x sent (reported wrote) i = tt
  Work-Holds stream t s x sent (cleared {a} {b} removal sync n) i =
      settle-Holds stream sent a b removal sync s i
  Work-Holds stream t s x sent (merged {a} {b} slow) i =
      if_slow-Answered stream slow sent a b _ i refl
  Work-Holds stream t s x sent released i = i

  admit-JobsHold :
      (s : Backend) (stream : Bool) (d : Disk) (sent : Sent)
      → Inv c s
      → JobsHold s.jobs sent
      → JobsHold (admit stream d s).1.jobs sent
  unfolding admit
  admit-JobsHold s stream d sent v i =
      if_cases P s.closing _ _ (λ _. i)
        (λ _.
          if_cases P (not (s.poison == "")) _ _ (λ _. i)
            (λ _. if_cases P s.busy _ _ (λ _. i) (λ b. on_open b d.open_lock)))
    where
      P : Answer × Backend → Type 0
      P x = JobsHold x.1.jobs sent

      on_persist : s.busy ≡ false → (r : Result (Unit {0})) → P (persisted stream r s)
      on_persist b (err e) = i
      on_persist b (ok _) =
          let none_yet = (idle c s b v).0 in
          let unsent = subst (λ js. JobsHold js sent) none_yet i in
          subst (λ js. JobsHold (js ++ fresh_job stream ∷ []) sent) (sym none_yet)
            (ap (λ x. heard false x.0) (sym unsent), ap (λ x. heard true x.1) (sym unsent))

      on_create : s.busy ≡ false → (r : Result (Unit {0})) → P (created stream r d s)
      on_create b (err e) = i
      on_create b (ok _) = on_persist b d.persist

      on_flock : s.busy ≡ false → (r : Result (Unit {0})) → P (flocked stream r d s)
      on_flock b (err e) = i
      on_flock b (ok _) = on_create b _

      on_open : s.busy ≡ false → (r : Result (Unit {0})) → P (opened stream r d s)
      on_open b (err e) = i
      on_open b (ok _) = on_flock b _

  Step-JobsHold :
      (s t : Backend) (sent : Sent) (step : Step c s t)
      → Inv c s
      → JobsHold s.jobs sent
      → JobsHold t.jobs (after_step step sent)
  unfolding stop_admission fail
  Step-JobsHold s t sent (admission stream d) v i = admit-JobsHold s stream d sent v i
  Step-JobsHold s t sent shutdown v i = i
  Step-JobsHold s t sent (expired wrote) v i = i
  Step-JobsHold s t sent (locked held outside) v i = i
  Step-JobsHold s t sent unlocked v i = i
  Step-JobsHold s t sent (archived outside) v i = i
  Step-JobsHold s t sent (worked {x = x} before j after e work) v i =
      let (none_before, _, _, _) =
        lone c s before j after (subst (λ js. JobsInv c js s) e v.jobs) in
      let here =
        subst (λ l. JobsHold (l ++ j ∷ after) sent) none_before
          (subst (λ js. JobsHold js sent) e i) in
      subst (λ l. JobsHold (l ++ record j { stage = x.0 } ∷ after) (after_work work sent))
        (sym none_before) (Work-Holds j.stream j.stage s x sent work here)
  Step-JobsHold s t sent (finished before j after r e at_end) v i =
      let (none_before, none_after, _, _) =
        lone c s before j after (subst (λ js. JobsInv c js s) e v.jobs) in
      subst (λ l. JobsHold (l ++ after) (none, none)) (sym none_before)
        (subst (λ l. JobsHold l (none, none)) (sym none_after) refl)

  Steps-JobsHold :
      (s t : Backend) (path : Steps c s t) → Inv c s → s.jobs ≡ [] → JobsHold t.jobs (sent_on path)
  unfolding sent_on
  Steps-JobsHold s t no_step v e = subst (λ js. JobsHold js (none, none)) (sym e) refl
  Steps-JobsHold s t (and_step {t = u} before last) v e =
      Step-JobsHold u t (sent_on before) last (Steps-Inv c s u v before)
        (Steps-JobsHold s u before v e)

  -- What a reply is made of: of a request, the body with the metrics of both ranks; of a stream, the
  -- terminal frames with the metrics of both ranks, or where a rank has sent none, the first rank's.
  abbrev pub IsMade : Bool → RankResult → RankResult → Reply → Type 0
  IsMade false a b r =
      (merge_paired_timing_metrics c a.body b.body ≡ ok r.body) × (r.terminal ≡ a.terminal)
  IsMade true a b r =
      (r.body ≡ a.body)
      × ((((a.terminal ≡ "") ⊎ (b.terminal ≡ "")) × (r.terminal ≡ a.terminal))
          ⊎ (merge_paired_sse_terminal_metrics c a.terminal b.terminal ≡ ok r.terminal))

  answer-IsMade :
      (stream : Bool) (a b : RankResult) (r : Reply)
      → answer c stream a b ≡ ok r
      → IsMade stream a b r
  unfolding answer
  answer-IsMade false a b r e =
      let (body, merges, same) = >>=-eq-ok (merge_paired_timing_metrics c a.body b.body) _ e in
      let made = ok-injective same in
      (merges ∙ ap (λ x. ok x.body) made, ap (λ x. x.terminal) (sym made))
  answer-IsMade true a b r e =
      let (terminal, merges, same) = >>=-eq-ok (both_terminal c a b) _ e in
      let made = ok-injective same in
      (
        ap (λ x. x.body) (sym made),
        elim (Bool-cases (a.terminal == "" || b.terminal == "")) [
          | inl blank ↦ inl (
            ground (arith, blank, eq_iff a.terminal "", eq_iff b.terminal ""),
            ap (λ x. x.terminal) (sym made) ∙ sym (ok-injective (sym (rw blank refl) ∙ merges)),
          )
          | inr full ↦ inr ((sym (rw full refl) ∙ merges) ∙ ap (λ x. ok x.terminal) made)
        ],
      )

  -- Whatever the interleaving, where a job is about to end with an answer, each rank has sent a
  -- result since the last job ended, the latest ones bear no error and equal generated output, and
  -- the answer is made of just these two: of a request, the body merged from both bodies, of a stream,
  -- the terminal frames merged from both ranks' (the first rank's, where one has sent none).
  pub answer-IsSound :
      (marker : Bool) (s : Backend) (before : List Job) (j : Job) (after : List Job) (reply : Reply)
      (path : Steps c (new_backend marker) s)
      → s.jobs ≡ before ++ j ∷ after
      → j.stage ≡ releasing (ok reply)
      → (a b : RankResult) × (sent_on path ≡ (some a, some b))
        × IsAgreed a b
        × IsMade j.stream a b reply
  unfolding new_backend
  answer-IsSound marker s before j after reply path e at_end =
      let v = new_backend-Inv c marker in
      let jobs = Steps-JobsHold (new_backend marker) s path v refl in
      let (none_before, _, _, _) =
        lone c s before j after
          (subst (λ js. JobsInv c js s) e (Steps-Inv c (new_backend marker) s v path).jobs) in
      let stage =
        subst (λ l. JobsHold (l ++ j ∷ after) (sent_on path)) none_before
          (subst (λ js. JobsHold js (sent_on path)) e jobs) in
      let (a, b, (sent, agreed), answers) =
        subst (λ t. Holds j.stream t (sent_on path)) at_end stage in
      (a, b, sent, agreed, answer-IsMade j.stream a b reply answers)
