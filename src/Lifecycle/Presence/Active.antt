-- ===== src/Lifecycle/Presence/Active.antt =====
-- When a unit counts as active.
use strix_halo_cluster_glm.Base.{
  String, [], ◌∷◌, ◌≡◌, ◌≢◌, ◌⊎◌, none, some, ok, trim_space, join_path,
}
use strix_halo_cluster_glm.Base.Integer.{ℤ}
use strix_halo_cluster_glm.Cluster.Host.{World, Host, command}
use strix_halo_cluster_glm.Cluster.Units.{Fields, field}
use strix_halo_cluster_glm.Lifecycle.Presence.{Presence}

-- The processes of the unit's cgroup, as they are read.
abbrev pub AreListed : World → ℤ → Fields → Host → String → Type 0
AreListed w rank v h pids =
    ((field "ControlGroup" v ≡ "") × (pids ≡ ""))
    ⊎ ((field "ControlGroup" v ≢ "")
        × ((out : String) × ((command w rank
                ("cat"
                  ∷ join_path (join_path "/sys/fs/cgroup" (field "ControlGroup" v)) "cgroup.procs"
                  ∷ [])
                h).0
              ≡ ok out)
            × (pids ≡ trim_space out)))

-- The unit has a main process, is active or about to be or to stop, or has processes left.
abbrev pub IsBusy : Fields → String → Type 0
IsBusy v pids =
    (field "MainPID" v ≢ "0")
    ⊎ (field "ActiveState" v ≡ "active")
    ⊎ (field "ActiveState" v ≡ "activating")
    ⊎ (field "ActiveState" v ≡ "deactivating")
    ⊎ (pids ≢ "")

module _ (w : World) (rank : ℤ) (unit : String) where
  abbrev active : Fields → Presence
  active v = record { state = "ACTIVE"; fields = some v; error = none }
