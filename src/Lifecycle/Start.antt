-- ===== src/Lifecycle/Start.antt =====
-- lifecycle_native.go: `start`, the goroutine of a start. A failure finishes the operation and ends
-- it, so each part takes what follows it.
pub mod Receipt
pub mod Published
use strix_halo_cluster_glm.Base.{
  String, List, [], ◌∷◌, ◌++◌, ℕ, zero, suc, Bool, true, false, not, ◌&&◌, ◌||◌, Option, none, some,
  Result, ok, err, ◌==◌, eqb, if◌then◌else◌, sprint, sprintf_d, join_path,
}
use strix_halo_cluster_glm.Base.Integer.{ℤ, pos}
use strix_halo_cluster_glm.Cluster.Owner.{ClusterOwner, ClusterConfig}
use strix_halo_cluster_glm.Cluster.Lease.{
  SharedComputeReceipt, shared_from_glm, shared_matches_glm, shared_start_allowed,
}
use strix_halo_cluster_glm.Cluster.Host.{
  World, M, pure, lift, fail, attempt, discard, ignore, with_lock, publish, read_shared, read_owner,
  ◌>>=◌, ◌>>◌,
}
use strix_halo_cluster_glm.Cluster.Control
use strix_halo_cluster_glm.Lifecycle.Services.{
  Services, Inference, run_local, backend_health, infer, health_polls,
}
use strix_halo_cluster_glm.Lifecycle.Presence.{Presence, presence_off, pair_unit, ds41_state}
use strix_halo_cluster_glm.Lifecycle.Snapshot.{Lifecycle}
use strix_halo_cluster_glm.Lifecycle.Operation.{set_detail, finish_operation}

abbrev pub finishing : String → String → Lifecycle → M Lifecycle
finishing detail e m = pure (finish_operation detail e "" m)

abbrev pub handled :
    {A : Type 0} → (String → M Lifecycle) → (A → M Lifecycle) → Result A → M Lifecycle
handled failed next (ok a) = next a
handled failed next (err e) = failed e

-- `if e != nil { … return }`
unfoldable pub or_finish :
    {A : Type 0} → M A → (String → M Lifecycle) → (A → M Lifecycle) → M Lifecycle
or_finish m failed next = attempt m >>= handled failed next

abbrev pub if_off : String → String → Lifecycle → M Lifecycle → Option String → M Lifecycle
if_off refused state m next (some e) = finishing refused e m
if_off refused state m next none =
    if not (state == presence_off)
    then finishing refused "DS41 peer is not OFF_VERIFIED" m
    else next

abbrev pub refused_start : ℤ → Presence → String
refused_start rank p = sprint ("GLM start refused: DS41 rank" ∷ sprintf_d rank ∷ "=" ∷ p.state ∷ [])

abbrev pub if_ds41_off : ℤ → Presence → Lifecycle → M Lifecycle → M Lifecycle
if_ds41_off rank p m next = if_off (refused_start rank p) p.state m next p.error

unfoldable pub check_ds41 : World → ℤ → Lifecycle → M Lifecycle → M Lifecycle
check_ds41 w rank m next = ds41_state w rank >>= λ p. if_ds41_off rank p m next

abbrev pub unloaded : World → ClusterConfig → M (Unit {0})
unloaded w cfg = ignore (Control.stop w cfg)

abbrev pub pair_stop_args : List String
pair_stop_args = "/usr/bin/systemctl" ∷ "--user" ∷ "stop" ∷ pair_unit ∷ []

-- stopPair
unfoldable pub stop_pair : Services → M (Unit {0})
stop_pair s = discard (run_local s pair_stop_args)

abbrev pub start_pair : Services → M String
start_pair s = run_local s ("/usr/bin/systemctl" ∷ "--user" ∷ "start" ∷ pair_unit ∷ [])

abbrev pub unless_healthy : M (Unit {0}) → Bool → M (Unit {0})
unless_healthy again true = pure tt
unless_healthy again false = again

-- The loop that waits for the coordinator; the rounds are those before its deadline.
unfoldable pub poll_health : Services → ℕ → M (Unit {0})
poll_health s zero = discard (backend_health s)
poll_health s (suc n) = backend_health s >>= unless_healthy (poll_health s n)

abbrev pub passed : Inference → Result String
passed r =
    if not (eqb r.status 200) || eqb r.choices 0
    then err (
        sprint (
          "readiness inference HTTP"
          ∷ sprintf_d (pos r.status)
          ∷ " choices="
          ∷ sprintf_d (pos r.choices)
          ∷ []))
    else ok (sprint ("HTTP200 choices=" ∷ sprintf_d (pos r.choices) ∷ []))

-- readinessInference
unfoldable pub readiness_inference : Services → M String
readiness_inference s = infer s >>= λ r. lift (passed r)

-- What runs under the lock of the shared receipt.
unfoldable pub publish_ready : World → ClusterConfig → ClusterOwner → M (Unit {0})
publish_ready w cfg o = do
  cur ← read_shared w cfg
  lift (shared_matches_glm cur o)
  publish w cfg (
      shared_from_glm "READY" o
        "both ranks, coordinator health and minimal readiness inference passed")

abbrev pub compute_lock : ClusterConfig → String
compute_lock cfg = join_path cfg.shared_state_dir "compute.lock"

unfoldable pub start_receipt : World → ClusterConfig → String → Lifecycle → M Lifecycle
unfolding publish_ready or_finish
start_receipt w cfg receipt m =
    or_finish (read_owner w)
      (λ e. finishing "readiness passed but controller owner receipt is unavailable" e m)
      (λ o.
        or_finish (with_lock w (compute_lock cfg) (publish_ready w cfg o))
          (λ e. finishing "readiness passed but shared READY receipt failed" e m)
          (λ _. pure (finish_operation "both ranks and coordinator READY" "" receipt m)))

unfoldable pub start_readiness : World → Services → ClusterConfig → Lifecycle → M Lifecycle
unfolding start_receipt readiness_inference stop_pair
start_readiness w s cfg m =
    or_finish (readiness_inference s)
      (λ e.
        ignore (stop_pair s)
        >> (unloaded w cfg >> finishing "readiness inference failed; GLM unloaded" e m))
      (λ receipt. start_receipt w cfg receipt m)

abbrev pub if_healthy : World → Services → ClusterConfig → Lifecycle → Bool → M Lifecycle
if_healthy w s cfg m true =
    start_readiness w s cfg (set_detail "running minimal paired readiness inference" m)
if_healthy w s cfg m false =
    ignore (stop_pair s)
    >> (unloaded w cfg
        >> finishing "coordinator health did not become ready; GLM unloaded"
            "backend health timeout" m)

unfoldable pub start_health : World → Services → ClusterConfig → Lifecycle → M Lifecycle
unfolding start_readiness poll_health
start_health w s cfg m = do
  n ← health_polls s
  poll_health s n
  b ← backend_health s
  if_healthy w s cfg m b

unfoldable pub start_coordinator : World → Services → ClusterConfig → Lifecycle → M Lifecycle
unfolding start_health
start_coordinator w s cfg m =
    or_finish (start_pair s)
      (λ e. unloaded w cfg >> finishing "coordinator start failed; GLM unloaded" e m)
      (λ _. start_health w s cfg m)

unfoldable pub start_ranks : World → Services → ClusterConfig → Lifecycle → M Lifecycle
unfolding start_coordinator
start_ranks w s cfg m =
    or_finish (Control.start w cfg) (λ e. finishing "whole-pair load failed" e m)
      (λ _. start_coordinator w s cfg (set_detail "starting paired coordinator" m))

abbrev pub start_gate : World → ClusterConfig → Lifecycle → M Lifecycle → M Lifecycle
start_gate w cfg m next =
    or_finish (read_shared w cfg)
      (λ e. finishing "GLM start refused: shared cluster receipt unavailable" e m)
      (λ shared.
        or_finish (lift (shared_start_allowed shared))
          (λ e. finishing "GLM start refused: shared cluster state is not reconciled OFF" e m)
          (λ _. next))

-- (*modelLifecycle).start
unfoldable pub start : World → Services → ClusterConfig → Lifecycle → M Lifecycle
unfolding check_ds41 start_ranks
start w s cfg m = check_ds41 w (pos 0) m (
    check_ds41 w (pos 1) m
      (start_gate w cfg m (start_ranks w s cfg (set_detail "loading both GLM ranks" m))))
