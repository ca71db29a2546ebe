-- ===== src/Cluster/Control/Locks.antt =====
-- What runs under the controller's locks, seen from the outside.
use strix_halo_cluster_glm.Base.{
  String, Bool, true, false, ◌≡◌, refl, ◌∙◌, Result, ok, err, join_path, dir_of,
}
use strix_halo_cluster_glm.Cluster.Owner.{ClusterConfig}
use strix_halo_cluster_glm.Cluster.Host.{
  World, Host, M, with_lock, continue, locked, unlocked, record_action,
}
use strix_halo_cluster_glm.Cluster.Stop.{is_shared}
use strix_halo_cluster_glm.Cluster.Control.{locked_pair, under_locks}

-- `m` ran to `a`, from the files of `h` to those of `final`.
pub record Inside {A : Type 0} (m : M A) (h : Host) (a : A) (final : Host) : Type 0 where
  pub begin : Host
  pub owner : begin.owner ≡ h.owner
  pub shared : begin.shared ≡ h.shared
  pub result : (m begin).0 ≡ ok a
  pub owner' : final.owner ≡ (m begin).1.owner
  pub shared' : final.shared ≡ (m begin).1.shared
  pub poison' : final.poison ≡ (m begin).1.poison

module _ {A : Type 0} (w : World) where
  pub with_lock-Inside :
      (path : String) (m : M A) (h : Host) {a : A}
      → (with_lock w path m h).0 ≡ ok a
      → Inside m h a (with_lock w path m h).1
  unfolding with_lock
  with_lock-Inside path m h {a} e = go (w.try_lock h.history path) e
    where
      inner : Host
      inner = record_action (locked path) h

      go :
          (r : Result (Unit {0}))
          → (continue r (λ _ _. ((m inner).0, record_action (unlocked path) (m inner).1)) h).0
            ≡ ok a
          → Inside m h a
              (continue r (λ _ _. ((m inner).0, record_action (unlocked path) (m inner).1)) h).1
      go (ok _) e = record {
        begin = inner;
        owner = refl;
        shared = refl;
        result = e;
        owner' = refl;
        shared' = refl;
        poison' = refl;
      }
      go (err x) e = cc

  nested :
      (path : String) (m : M A) (h : Host) (a : A) (final : Host)
      → Inside (with_lock w path m) h a final
      → Inside m h a final
  nested path m h a final x =
      let y = with_lock-Inside path m x.begin x.result in
      record {
        begin = y.begin;
        owner = y.owner ∙ x.owner;
        shared = y.shared ∙ x.shared;
        result = y.result;
        owner' = x.owner' ∙ y.owner';
        shared' = x.shared' ∙ y.shared';
        poison' = x.poison' ∙ y.poison';
      }

  module _ (cfg : ClusterConfig) (m : M A) where
    legacy : String
    legacy = join_path (dir_of cfg.legacy_owner) "pair.lock"

    locked_pair-Inside :
        (h : Host) {a : A}
        → (locked_pair w cfg m h).0 ≡ ok a
        → Inside m h a (locked_pair w cfg m h).1
    unfolding locked_pair legacy
    locked_pair-Inside h e =
        nested legacy m h _ _
          (with_lock-Inside (join_path cfg.state_dir "pair.lock") (with_lock w legacy m) h e)

    -- What succeeds under the controller's locks ran to that result from the files as they were, and
    -- left the files as they are behind it.
    pub under_locks-Inside :
        (h : Host) {a : A}
        → (under_locks w cfg m h).0 ≡ ok a
        → Inside m h a (under_locks w cfg m h).1
    unfolding under_locks
    under_locks-Inside h {a} e = go (is_shared cfg) e
      where
        run : Bool → M A
        run b = elim b [
          | true ↦ with_lock w (join_path cfg.shared_state_dir "compute.lock") (locked_pair w cfg m)
          | false ↦ locked_pair w cfg m
        ]

        go : (b : Bool) → (run b h).0 ≡ ok a → Inside m h a (run b h).1
        go true e =
            let x =
              with_lock-Inside (join_path cfg.shared_state_dir "compute.lock") (locked_pair w cfg m)
                h e in
            let y = locked_pair-Inside x.begin x.result in
            record {
              begin = y.begin;
              owner = y.owner ∙ x.owner;
              shared = y.shared ∙ x.shared;
              result = y.result;
              owner' = x.owner' ∙ y.owner';
              shared' = x.shared' ∙ y.shared';
              poison' = x.poison' ∙ y.poison';
            }
        go false e = locked_pair-Inside h e
