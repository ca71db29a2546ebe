-- ===== src/Cluster/Control.antt =====
-- controller.go: the public operations, under the locks that serialise them.
pub mod Locks
use strix_halo_cluster_glm.Base.{join_path, dir_of, true, false}
use strix_halo_cluster_glm.Cluster.Owner.{ClusterConfig}
use strix_halo_cluster_glm.Cluster.Host.{World, M, with_lock, ◌>>◌}
use strix_halo_cluster_glm.Cluster.Stop
use strix_halo_cluster_glm.Cluster.Start

unfoldable pub locked_pair : {A : Type 0} → World → ClusterConfig → M A → M A
locked_pair w cfg m =
    with_lock w (join_path cfg.state_dir "pair.lock")
      (with_lock w (join_path (dir_of cfg.legacy_owner) "pair.lock") m)

-- (*ClusterController).locked
unfoldable pub under_locks : {A : Type 0} → World → ClusterConfig → M A → M A
unfolding locked_pair
under_locks w cfg m = elim (Stop.is_shared cfg) [
  | true ↦ with_lock w (join_path cfg.shared_state_dir "compute.lock") (locked_pair w cfg m)
  | false ↦ locked_pair w cfg m
]

unfoldable pub stop : World → ClusterConfig → M (Unit {0})
unfolding under_locks
stop w cfg = under_locks w cfg (Stop.stop w cfg)

unfoldable pub start : World → ClusterConfig → M (Unit {0})
unfolding under_locks
start w cfg = under_locks w cfg (Start.start w cfg)

unfoldable pub restart : World → ClusterConfig → M (Unit {0})
unfolding under_locks
restart w cfg = under_locks w cfg (Stop.stop w cfg >> Start.start w cfg)
