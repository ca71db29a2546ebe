-- ===== src/Cluster/Owner.antt =====
-- The records of controller.go that name the owned pair: its units, its owner file and its settings.
use strix_halo_cluster_glm.Base.{String, List, ◌&&◌, Bool, ◌==◌}
use strix_halo_cluster_glm.Base.Integer.{ℤ, int_eq}

pub record OwnedUnit : Type 0 where
  pub rank : ℤ
  pub name : String
  pub nonce : String
  pub invocation_id : String

pub record ClusterOwner : Type 0 where
  pub schema : String
  pub state : String
  pub epoch : String
  pub units : List OwnedUnit
  pub error : String
  pub updated : String

pub record ClusterConfig : Type 0 where
  pub state_dir : String
  pub engine_root : String
  pub launcher : String
  pub manifest : String
  pub remote_ssh : String
  pub rank_url_0 : String
  pub rank_url_1 : String
  pub master_port : ℤ
  pub frontend_listen : String
  pub legacy_owner : String
  pub load_timeout_seconds : ℤ
  pub shared_state_dir : String

-- `a == b` on Go structs of this type
abbrev pub unit_eq : OwnedUnit → OwnedUnit → Bool
unit_eq a b =
    int_eq a.rank b.rank
    && a.name == b.name
    && a.nonce == b.nonce
    && a.invocation_id == b.invocation_id
