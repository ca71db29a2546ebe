-- ===== src/Cluster/Stop/Actions.antt =====
-- Which commands `stopUnits` can issue, whatever the units, systemd and the schedule do.
use strix_halo_cluster_glm.Base.{
  List, [], ◌∷◌, ℕ, zero, suc, ◌≡◌, refl, inl, inr, Bool, true, false, Result, ok, err, ◌==◌,
  eq_iff, All, ◌++◌, Bool-cases,
}
use strix_halo_cluster_glm.Base.Integer.{pos}
use strix_halo_cluster_glm.Cluster.Owner.{OwnedUnit}
use strix_halo_cluster_glm.Cluster.Host.{World, Action, ran, attempt, command, when}
use strix_halo_cluster_glm.Cluster.Units.{
  show_args, stop_args, unit, unit_active, verify_unit, inspect_each, inspect_all, Fields,
  valid_units,
}
use strix_halo_cluster_glm.Cluster.Trace.{
  Extends-refl, Yields, Only, bind-Yields, pure-Yields, lift-Only, attempt-Only, then-Only,
  when-Only, command-Only, unit-Only,
}
use strix_halo_cluster_glm.Cluster.Stop.{
  frontend, Worker, inspecting, halting, finished, decide, worker_step, step_at, run_schedule,
  finish_all, workers, stop_verified, stop_frontend, prove_stopped, stop_ranks, stop_units, verdict,
  without_output, errors_of, scheduled, joined,
}

-- What the three loops need to know of `P`: it admits the queries of the units, and their stops.
abbrev pub Queries : (Action → Type 0) → List OwnedUnit → Type 0
Queries P us = All (λ u. P (ran u.rank (show_args u.name))) us

abbrev pub Stops : (Action → Type 0) → List OwnedUnit → Type 0
Stops P us =
    All
      (λ u.
        P (ran u.rank (stop_args u.name))
        × (u.name ≡ frontend → P (ran (pos 0) (stop_args u.name))))
      us

module _ {P : Action → Type 0} (w : World) where
  pub inspect_each-Only : (us : List OwnedUnit) → Queries P us → Only P (inspect_each w us)
  unfolding inspect_each
  inspect_each-Only [] q = pure-Yields tt tt
  inspect_each-Only (u ∷ us) (q, qs) =
      bind-Yields (unit w u) _ (unit-Only w u q)
        (λ m _. then-Only _ _ (lift-Only (verify_unit u m)) (inspect_each-Only us qs))

  pub inspect_all-Only :
      (us : List OwnedUnit) (legacy : Bool) → Queries P us → Only P (inspect_all w us legacy)
  unfolding inspect_all
  inspect_all-Only us legacy q =
      then-Only _ _ (lift-Only (valid_units us legacy)) (inspect_each-Only us q)

  pub prove_stopped-Only : (us : List OwnedUnit) → Queries P us → Only P (prove_stopped w us)
  unfolding prove_stopped
  prove_stopped-Only [] q = pure-Yields [] tt
  prove_stopped-Only (u ∷ us) (q, qs) =
      bind-Yields (attempt (unit w u)) _ (attempt-Only _ (unit-Only w u q)) (λ r _.
        bind-Yields (prove_stopped w us) _ (prove_stopped-Only us qs) (λ rest _. pure-Yields _ tt))

module _ (P : Action → Type 0) (w : World) where
  -- A worker whose remaining commands `P` admits.
  abbrev Admitted : Worker → Type 0
  Admitted (inspecting u) = P (ran u.rank (show_args u.name)) × P (ran u.rank (stop_args u.name))
  Admitted (halting u) = P (ran u.rank (stop_args u.name))
  Admitted (finished r) = Unit

  verdict-Admitted :
      (u : OwnedUnit) (r : Result (Unit {0})) (active : Bool)
      → P (ran u.rank (stop_args u.name))
      → Admitted (verdict u r active)
  verdict-Admitted u (err e) active p = tt
  verdict-Admitted u (ok _) true p = p
  verdict-Admitted u (ok _) false p = tt

  decide-Admitted :
      (u : OwnedUnit) (r : Result Fields)
      → P (ran u.rank (stop_args u.name))
      → Admitted (decide u r)
  unfolding decide
  decide-Admitted u (err e) p = tt
  decide-Admitted u (ok m) p = verdict-Admitted u (verify_unit u m) (unit_active m) p

  worker_step-Yields : (t : Worker) → Admitted t → Yields P Admitted (worker_step w t)
  unfolding worker_step
  worker_step-Yields (inspecting u) (query, halt) =
      bind-Yields (attempt (unit w u)) _ (attempt-Only _ (unit-Only w u query))
        (λ r _. pure-Yields (decide u r) (decide-Admitted u r halt))
  worker_step-Yields (halting u) halt =
      bind-Yields (attempt (command w u.rank (stop_args u.name))) _
        (attempt-Only _ (command-Only w u.rank (stop_args u.name) halt))
        (λ r _. pure-Yields (finished (without_output r)) tt)
  worker_step-Yields (finished r) _ = pure-Yields (finished r) tt

  step_at-Yields :
      (i : ℕ) (ts : List Worker) → All Admitted ts → Yields P (All Admitted) (step_at w i ts)
  unfolding step_at
  step_at-Yields i [] a = pure-Yields [] tt
  step_at-Yields zero (t ∷ ts) (a, rest_a) =
      bind-Yields (worker_step w t) _ (worker_step-Yields t a)
        (λ t' a'. pure-Yields (t' ∷ ts) (a', rest_a))
  step_at-Yields (suc i) (t ∷ ts) (a, rest_a) =
      bind-Yields (step_at w i ts) _ (step_at-Yields i ts rest_a)
        (λ ts' rest_a'. pure-Yields (t ∷ ts') (a, rest_a'))

  run_schedule-Yields :
      (is : List ℕ) (ts : List Worker)
      → All Admitted ts
      → Yields P (All Admitted) (run_schedule w is ts)
  unfolding run_schedule
  run_schedule-Yields [] ts a = pure-Yields ts a
  run_schedule-Yields (i ∷ is) ts a =
      bind-Yields (step_at w i ts) _ (step_at-Yields i ts a) (run_schedule-Yields is)

  finish_all-Only : (ts : List Worker) → All Admitted ts → Only P (finish_all w ts)
  unfolding finish_all
  finish_all-Only [] a = pure-Yields [] tt
  finish_all-Only (t ∷ ts) (a, rest_a) =
      bind-Yields (worker_step w t) _ (worker_step-Yields t a) (λ t' a'.
        bind-Yields (worker_step w t') _ (worker_step-Yields t' a') (λ t'' _.
          bind-Yields (finish_all w ts) _ (finish_all-Only ts rest_a)
            (λ ts' _. pure-Yields (t'' ∷ ts') tt)))

  workers-Admitted : (us : List OwnedUnit) → Queries P us → Stops P us → All Admitted (workers us)
  unfolding workers
  workers-Admitted [] q s = tt
  workers-Admitted (u ∷ us) (q, qs) (s, ss) = elim (Bool-cases (u.name == frontend)) [
    | inl e ↦ rw e (workers-Admitted us qs ss)
    | inr e ↦ rw e ((q, s.0), workers-Admitted us qs ss)
  ]

  stop_ranks-Only : (us : List OwnedUnit) → Queries P us → Stops P us → Only P (stop_ranks w us)
  unfolding stop_ranks
  stop_ranks-Only us q s =
      bind-Yields (scheduled w) _ (record { run = Extends-refl; result = λ h a e. tt })
        (λ order _.
          bind-Yields (run_schedule w order (workers us)) _
            (run_schedule-Yields order (workers us) (workers-Admitted us q s))
            (λ ts a.
              bind-Yields (finish_all w ts) _ (finish_all-Only ts a)
                (λ ts' _. pure-Yields (errors_of ts') tt)))

  stop_verified-Only :
      (u : OwnedUnit)
      → P (ran u.rank (show_args u.name))
      → P (ran (pos 0) (stop_args u.name))
      → Only P (stop_verified w u)
  unfolding stop_verified
  stop_verified-Only u q s = bind-Yields (unit w u) _ (unit-Only w u q) (λ m _.
      then-Only _ _ (lift-Only (verify_unit u m)) (
        when-Only (unit_active m) _ (
          bind-Yields (command w (pos 0) (stop_args u.name)) _ (command-Only w (pos 0) _ s)
            (λ _ _. pure-Yields tt tt))))

  stop_frontend-Only :
      (us : List OwnedUnit) → Queries P us → Stops P us → Only P (stop_frontend w us)
  unfolding stop_frontend
  stop_frontend-Only [] q s = pure-Yields tt tt
  stop_frontend-Only (u ∷ us) (q, qs) (s, ss) =
      then-Only _ _ (first (u.name == frontend) (λ e. (eq_iff _ _).0 e))
        (stop_frontend-Only us qs ss)
    where
      first : (b : Bool) → (b ≡ true → u.name ≡ frontend) → Only P (when b (stop_verified w u))
      first true named = stop_verified-Only u q (s.1 (named refl))
      first false named = pure-Yields tt tt

  -- Whatever else happens, `stopUnits` adds only actions that `P` admits.
  pub stop_units-Only :
      (us : List OwnedUnit) (legacy : Bool)
      → Queries P us
      → Stops P us
      → Only P (stop_units w us legacy)
  unfolding stop_units
  stop_units-Only us legacy q s = then-Only _ _ (inspect_all-Only w us legacy q) (
      then-Only _ _ (stop_frontend-Only us q s) (
        then-Only _ _ (inspect_all-Only w us legacy q) (
          bind-Yields (stop_ranks w us) _ (stop_ranks-Only us q s) (λ failures _.
            bind-Yields (prove_stopped w us) _ (prove_stopped-Only w us q)
              (λ left _. lift-Only (joined (failures ++ left)))))))
