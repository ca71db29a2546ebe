-- ===== src/Lifecycle/Operation.antt =====
-- lifecycle_native.go: the one operation that may be in progress.
pub mod Single
use strix_halo_cluster_glm.Base.{
  String, [], ◌∷◌, Bool, true, false, not, ◌&&◌, ◌||◌, Option, none, some, Result, ok, err, ◌==◌,
  if◌then◌else◌, sprint, sprintf_d,
}
use strix_halo_cluster_glm.Base.Integer.{ℤ}
use strix_halo_cluster_glm.Cluster.Owner.{ClusterConfig}
use strix_halo_cluster_glm.Cluster.Lease.{SharedComputeReceipt}
use strix_halo_cluster_glm.Cluster.Host.{World, M, pure, attempt, read_shared, ◌>>=◌}
use strix_halo_cluster_glm.Cluster.Units.{Fields}
use strix_halo_cluster_glm.Lifecycle.Services.{Services, backend_health}
use strix_halo_cluster_glm.Lifecycle.Presence.{pair_state, lifecycle_unit_running}
use strix_halo_cluster_glm.Lifecycle.Snapshot.{Lifecycle, running_pair}

abbrev pub idle : Lifecycle
idle = record { operation = ""; transient = ""; detail = ""; last_error = ""; last_readiness = "" }

-- setTransient: none where it answers false.
unfoldable pub set_transient : String → String → String → Lifecycle → Option Lifecycle
set_transient op state detail m =
    if not (m.operation == "")
    then none
    else some (record m { operation = op; transient = state; detail = detail; last_error = "" })

unfoldable pub set_detail : String → Lifecycle → Lifecycle
set_detail detail m = record m { detail = detail }

unfoldable pub finish_operation : String → String → String → Lifecycle → Lifecycle
finish_operation detail last_error readiness m = record m {
  operation = "";
  transient = "";
  detail = detail;
  last_error = last_error;
  last_readiness = if readiness == "" then m.last_readiness else readiness;
}

-- What StartAsync changes before the goroutine runs.
unfoldable pub begin_start : Lifecycle → Option Lifecycle
unfolding set_transient
begin_start = set_transient "start" "STARTING" "validating DS41 and persistent cluster ownership"

-- What StopAsync changes before the goroutine runs.
unfoldable pub begin_stop : ℤ → Lifecycle → Option Lifecycle
unfolding set_transient
begin_stop drain = set_transient "stop" "STOPPING" (
    sprint
      ("blocking new inference and draining coordinator for up to " ∷ sprintf_d drain ∷ "s" ∷ []))

abbrev pub is_glm_ready : Result SharedComputeReceipt → Bool
is_glm_ready (ok r) = r.owner == "GLM" && r.state == "READY"
is_glm_ready (err e) = false

abbrev pub healthy_if : Services → Bool → M Bool
healthy_if s true = backend_health s
healthy_if s false = pure false

abbrev pub running_if : Services → Bool → M Bool
running_if s false = pure false
running_if s true = do p ← attempt (pair_state s); healthy_if s (running_pair p)

abbrev pub ready_if : World → Services → ClusterConfig → Bool → M Bool
ready_if w s cfg true = pure false
ready_if w s cfg false = do r ← attempt (read_shared w cfg); running_if s (is_glm_ready r)

-- (*modelLifecycle).ready
unfoldable pub ready : World → Services → ClusterConfig → Lifecycle → M Bool
ready w s cfg m =
    ready_if w s cfg
      (not (m.operation == "") || not (m.transient == "") || not (m.last_error == ""))
