-- ===== src/Lifecycle/Services.antt =====
-- What modelLifecycle uses besides the controller: a local systemctl, the coordinator's HTTP service
-- and /proc/meminfo. As for the controller's `World`, each answers to all that was done before.
use strix_halo_cluster_glm.Base.{String, List, ℕ, Bool, Result, ok}
use strix_halo_cluster_glm.Base.Integer.{pos}
use strix_halo_cluster_glm.Cluster.Host.{Action, ran, probed, M, record_action}

-- The answer to the readiness request: its HTTP status, and how many choices it has.
pub record Inference : Type 0 where
  pub status : ℕ
  pub choices : ℕ

pub record Services : Type 0 where
  pub systemctl : List Action → List String → Result String
  pub backend : List Action → Bool
  pub inference : List Action → Result Inference
  pub meminfo : List Action → Result String
  -- how often the coordinator is asked for its health before thirty seconds are over
  pub polls : List Action → ℕ

module _ (s : Services) where
  -- runLocal
  unfoldable pub run_local : List String → M String
  run_local args h = (s.systemctl h.history args, record_action (ran (pos 0) args) h)

  -- backendHealth
  unfoldable pub backend_health : M Bool
  backend_health h = (ok (s.backend h.history), record_action (probed "backend") h)

  unfoldable pub infer : M Inference
  infer h = (s.inference h.history, record_action (probed "inference") h)

  unfoldable pub read_meminfo : M String
  read_meminfo h = (s.meminfo h.history, h)

  unfoldable pub health_polls : M ℕ
  health_polls h = (ok (s.polls h.history), h)
