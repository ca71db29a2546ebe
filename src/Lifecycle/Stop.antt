-- ===== src/Lifecycle/Stop.antt =====
-- lifecycle_native.go: `stop`, the goroutine of a stop.
pub mod Unloaded
use strix_halo_cluster_glm.Base.{String, Bool, true, false, ◌&&◌, Result, ok, err, ◌==◌}
use strix_halo_cluster_glm.Base.Integer.{ℤ}
use strix_halo_cluster_glm.Cluster.Owner.{ClusterConfig}
use strix_halo_cluster_glm.Cluster.Host.{World, M, pure, attempt, ◌>>=◌}
use strix_halo_cluster_glm.Cluster.Units.{Fields}
use strix_halo_cluster_glm.Cluster.Control
use strix_halo_cluster_glm.Lifecycle.Services.{Services}
use strix_halo_cluster_glm.Lifecycle.Presence.{pair_state}
use strix_halo_cluster_glm.Lifecycle.Snapshot.{Lifecycle, running_pair, snapshot}
use strix_halo_cluster_glm.Lifecycle.Operation.{set_detail, finish_operation}
use strix_halo_cluster_glm.Lifecycle.Start.{finishing, or_finish, stop_pair}

abbrev pub stop_answer : Result (Unit {0}) → Bool → Lifecycle → Lifecycle
stop_answer pair true m =
    finish_operation "coordinator still active after rank stop" "coordinator stop not proven" "" m
stop_answer (err e) false m =
    finish_operation "GLM ranks verified OFF after coordinator drain deadline/cancellation" e "" m
stop_answer (ok _) false m =
    finish_operation "GLM OFF; coordinator and both ranks verified stopped" "" "" m

-- What `stop` does behind the stop of the ranks.
unfoldable pub stop_coordinator : Services → Result (Unit {0}) → Lifecycle → M Lifecycle
stop_coordinator s pair m = do
  p ← attempt (pair_state s)
  pure (stop_answer pair (running_pair p) m)

unfoldable pub stop_ranks :
    World → Services → ClusterConfig → Result (Unit {0}) → Lifecycle → M Lifecycle
unfolding stop_coordinator or_finish
stop_ranks w s cfg pair m =
    or_finish (Control.stop w cfg) (λ e. finishing "GLM stop is partial/UNKNOWN; no false OFF" e m)
      (λ _. stop_coordinator s pair m)

unfoldable pub stop_loaded : World → Services → ClusterConfig → Lifecycle → M Lifecycle
unfolding stop_ranks
stop_loaded w s cfg m = do
  pair ← attempt (stop_pair s)
  stop_ranks w s cfg pair (set_detail "stopping and verifying both owned GLM ranks" m)

abbrev pub unless_off : World → Services → ClusterConfig → Lifecycle → Bool → M Lifecycle
unless_off w s cfg m true = finishing "GLM already OFF; no model process touched" "" m
unless_off w s cfg m false = stop_loaded w s cfg m

-- (*modelLifecycle).stop
unfoldable pub stop : World → Services → ClusterConfig → ℤ → Lifecycle → M Lifecycle
unfolding stop_loaded
stop w s cfg drain m = do
  x ← snapshot w s cfg drain m
  unless_off w s cfg m (x.state == "OFF" && x.coordinator == "OFF")
