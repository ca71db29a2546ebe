-- ===== src/Cluster/Stop.antt =====
-- controller.go: stopping units and stopping the pair.
pub mod Actions
pub mod Proven
pub mod Release
pub mod Success
use strix_halo_cluster_glm.Base.{
  String, List, [], ◌∷◌, ◌++◌, ℕ, zero, suc, Bool, true, false, not, ◌&&◌, Result, ok, err, is_ok,
  ◌==◌, if◌then◌else◌, sprint, join,
}
use strix_halo_cluster_glm.Base.Integer.{pos}
use strix_halo_cluster_glm.Cluster.Owner.{OwnedUnit, ClusterOwner, ClusterConfig}
use strix_halo_cluster_glm.Cluster.Lease.{
  SharedComputeReceipt, shared_from_glm, shared_off, shared_matches_glm,
}
use strix_halo_cluster_glm.Cluster.Host.{
  World, M, discard, pure, fail, lift, attempt, ignore, when, command, save, publish, read_shared,
  read_owner, archive_poison, ◌>>=◌, ◌>>◌,
}
use strix_halo_cluster_glm.Cluster.Units.{
  Fields, unit, unit_active, verify_unit, stop_args, inspect_all,
}

abbrev pub frontend : String
frontend = "ciru-frontend-001"

-- The goroutine that stops one unit, between two of its commands.
pub data Worker : Type 0 where
  inspecting halting : OwnedUnit → Worker
  finished : Result (Unit {0}) → Worker

abbrev pub verdict : OwnedUnit → Result (Unit {0}) → Bool → Worker
verdict u (err e) active = finished (err e)
verdict u (ok _) true = halting u
verdict u (ok _) false = finished (ok tt)

-- What the worker does with the answer about its unit.
unfoldable pub decide : OwnedUnit → Result Fields → Worker
decide u (err e) = finished (err e)
decide u (ok m) = verdict u (verify_unit u m) (unit_active m)

abbrev pub without_output : Result String → Result (Unit {0})
without_output (ok s) = ok tt
without_output (err e) = err e

unfoldable pub worker_step : World → Worker → M Worker
unfolding decide
worker_step w (inspecting u) = do r ← attempt (unit w u); pure (decide u r)
worker_step w (halting u) = do
  r ← attempt (command w u.rank (stop_args u.name))
  pure (finished (without_output r))
worker_step w (finished r) = pure (finished r)

-- One step of the worker at place `i`; no worker, no step.
unfoldable pub step_at : World → ℕ → List Worker → M (List Worker)
unfolding worker_step
step_at w i [] = pure []
step_at w zero (t ∷ ts) = do t' ← worker_step w t; pure (t' ∷ ts)
step_at w (suc i) (t ∷ ts) = do ts' ← step_at w i ts; pure (t ∷ ts')

unfoldable pub run_schedule : World → List ℕ → List Worker → M (List Worker)
unfolding step_at
run_schedule w [] ts = pure ts
run_schedule w (i ∷ is) ts = do ts' ← step_at w i ts; run_schedule w is ts'

-- Two more steps finish a worker: `wg.Wait()`.
unfoldable pub finish_all : World → List Worker → M (List Worker)
unfolding worker_step
finish_all w [] = pure []
finish_all w (t ∷ ts) = do
  t' ← worker_step w t
  t'' ← worker_step w t'
  ts' ← finish_all w ts
  pure (t'' ∷ ts')

abbrev pub errors_of : List Worker → List String
errors_of [] = []
errors_of (finished (err e) ∷ ts) = e ∷ errors_of ts
errors_of (_ ∷ ts) = errors_of ts

unfoldable pub workers : List OwnedUnit → List Worker
workers [] = []
workers (u ∷ us) = if u.name == frontend then workers us else inspecting u ∷ workers us

unfoldable pub stop_verified : World → OwnedUnit → M (Unit {0})
stop_verified w u = do
  m ← unit w u
  lift (verify_unit u m)
  when (unit_active m) (discard (command w (pos 0) (stop_args u.name)))

-- The frontend is stopped before the ranks.
unfoldable pub stop_frontend : World → List OwnedUnit → M (Unit {0})
unfolding stop_verified
stop_frontend w [] = pure tt
stop_frontend w (u ∷ us) = do when (u.name == frontend) (stop_verified w u); stop_frontend w us

unfoldable pub left_over : OwnedUnit → Result Fields → List String
left_over u (err e) = e ∷ []
left_over u (ok m) =
    if unit_active m then sprint ("not proven stopped: " ∷ u.name ∷ []) ∷ [] else []

-- The loop that proves every unit stopped; it collects the errors.
unfoldable pub prove_stopped : World → List OwnedUnit → M (List String)
unfolding left_over
prove_stopped w [] = pure []
prove_stopped w (u ∷ us) = do
  r ← attempt (unit w u)
  rest ← prove_stopped w us
  pure (left_over u r ++ rest)

-- errors.Join
abbrev pub joined : List String → Result (Unit {0})
joined [] = ok tt
joined (e ∷ es) = err (join "\n" (e ∷ es))

abbrev pub scheduled : World → M (List ℕ)
scheduled w h = (ok (w.schedule h.history), h)

-- The workers step in the order of the schedule, and the rest of their steps follow. The errors
-- are joined in the order of the units, where Go joins them as the workers end.
unfoldable pub stop_ranks : World → List OwnedUnit → M (List String)
unfolding run_schedule finish_all workers
stop_ranks w us = do
  order ← scheduled w
  ts ← run_schedule w order (workers us)
  ts' ← finish_all w ts
  pure (errors_of ts')

-- (*ClusterController).stopUnits
unfoldable pub stop_units : World → List OwnedUnit → Bool → M (Unit {0})
unfolding stop_frontend stop_ranks prove_stopped
stop_units w us legacy = do
  inspect_all w us legacy
  stop_frontend w us
  inspect_all w us legacy
  failures ← stop_ranks w us
  left ← prove_stopped w us
  lift (joined (failures ++ left))

abbrev pub is_shared : ClusterConfig → Bool
is_shared cfg = not (cfg.shared_state_dir == "")

-- `sharedOwned` and `sharedValid` of `stop`, and its STOPPING receipt.
abbrev pub Claim : Type 0
Claim = Bool × Bool

-- The second argument is `sharedOwned`, the third whether the receipt matches as well.
abbrev pub claim_with : World → ClusterConfig → ClusterOwner → Bool → Bool → M Claim
claim_with w cfg o owned true =
    ignore (publish w cfg (shared_from_glm "STOPPING" o "stopping both owned GLM ranks"))
    >> pure (owned, true)
claim_with w cfg o owned false = pure (owned, false)

unfoldable pub claim_of : World → ClusterConfig → ClusterOwner → SharedComputeReceipt → M Claim
claim_of w cfg o r =
    claim_with w cfg o (r.owner == "GLM") (r.owner == "GLM" && is_ok (shared_matches_glm r o))

abbrev pub claim_found :
    World → ClusterConfig → ClusterOwner → Result SharedComputeReceipt → M Claim
claim_found w cfg o (ok r) = claim_of w cfg o r
claim_found w cfg o (err e) = pure (false, false)

abbrev pub claim_if_shared : World → ClusterConfig → ClusterOwner → Bool → M Claim
claim_if_shared w cfg o true = do r ← attempt (read_shared w cfg); claim_found w cfg o r
claim_if_shared w cfg o false = pure (false, false)

unfoldable pub claim_stopping : World → ClusterConfig → ClusterOwner → M Claim
unfolding claim_of
claim_stopping w cfg o = claim_if_shared w cfg o (is_shared cfg)

unfoldable pub stop_failed : World → ClusterConfig → ClusterOwner → Bool → String → M (Unit {0})
stop_failed w cfg o owned e = do
  let o' = record o { state = "cleanup_uncertain"; error = e }
  ignore (save w o')
  when (is_shared cfg && owned) (
      ignore (
        publish w cfg (
          shared_from_glm "UNRECONCILED" o'
            (sprint ("GLM stop failed or peer became unverifiable: " ∷ e ∷ [])))))
  fail e

unfoldable pub release_shared : World → ClusterConfig → ClusterOwner → Bool → M (Unit {0})
release_shared w cfg o true = publish w cfg (shared_off "both GLM ranks verified stopped")
release_shared w cfg o false = do
  publish w cfg (
      shared_from_glm "UNRECONCILED" o
        "GLM ranks stopped but shared owner identity did not match current pair")
  fail "GLM ranks stopped but shared cluster ownership remains unreconciled"

unfoldable pub stop_proven : World → ClusterConfig → ClusterOwner → Claim → M (Unit {0})
unfolding release_shared
stop_proven w cfg o (owned, valid) = do
  let o' = record o { state = "stopped"; error = "" }
  save w o'
  when (is_shared cfg && owned) (release_shared w cfg o' valid)
  archive_poison w

abbrev pub after_stop :
    World → ClusterConfig → ClusterOwner → Claim → Result (Unit {0}) → M (Unit {0})
after_stop w cfg o claim (ok _) = stop_proven w cfg o claim
after_stop w cfg o (owned, valid) (err e) = stop_failed w cfg o owned e

-- (*ClusterController).stop
unfoldable pub stop : World → ClusterConfig → M (Unit {0})
unfolding claim_stopping stop_failed stop_proven
stop w cfg = do
  o ← read_owner w
  claim ← claim_stopping w cfg o
  r ← attempt (stop_units w o.units false)
  after_stop w cfg o claim r
