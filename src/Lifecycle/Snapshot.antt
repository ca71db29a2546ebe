-- ===== src/Lifecycle/Snapshot.antt =====
-- lifecycle_native.go: the state that the gateway reports of the pair, and whether it may start.
pub mod Nodes
pub mod Off
pub mod Looks
use strix_halo_cluster_glm.Base.{
  String, List, [], ◌∷◌, ◌++◌, ℕ, ◌+◌, Bool, true, false, not, ◌&&◌, ◌||◌, Option, none, some,
  Result, ok, err, is_ok, ◌==◌, if◌then◌else◌, sprint, sprintf_d,
}
use strix_halo_cluster_glm.Base.Integer.{ℤ, pos, int_eq}
use strix_halo_cluster_glm.Cluster.Owner.{OwnedUnit, ClusterOwner, ClusterConfig}
use strix_halo_cluster_glm.Cluster.Lease.{SharedComputeReceipt, shared_matches_glm}
use strix_halo_cluster_glm.Cluster.Host.{World, M, pure, attempt, read_shared, read_owner, ◌>>=◌}
use strix_halo_cluster_glm.Cluster.Units.{Fields, field, verify_unit}
use strix_halo_cluster_glm.Lifecycle.Services.{Services, backend_health}
use strix_halo_cluster_glm.Lifecycle.Memory.{node_memory}
use strix_halo_cluster_glm.Lifecycle.Presence.{
  Presence, presence_active, presence_off, presence_unknown, unit_presence, ds41_state, pair_state,
  lifecycle_unit_running,
}
use strix_halo_cluster_glm.Lifecycle.Survey.{
  LifecycleNode, Survey, asked, has_error, if_rank, is_owned, is_ready, measured_node, no_survey,
  node_02_unavailable, node_host, node_of, or_last, raw_field, survey_rank, surveyed, surveys,
  text_of, unit_of, units_of, with_memory,
}

-- The fields of modelLifecycle that its mutex guards.
pub record Lifecycle : Type 0 where
  pub operation : String
  pub transient : String
  pub detail : String
  pub last_error : String
  pub last_readiness : String

pub record LifecycleSnapshot : Type 0 where
  pub state : String
  pub detail : String
  pub operation : String
  pub cluster_owner : String
  pub start_allowed : Bool
  pub drain_seconds : ℤ
  pub coordinator : String
  pub readiness : String
  pub nodes : List LifecycleNode
  pub updated : String
  pub last_error : String
  pub last_readiness : String

-- The foreign model's unit on the peer, unless the peer could not be asked before.
abbrev pub foreign_peer : World → Bool → M Presence
foreign_peer w true =
    pure (record { state = presence_unknown; fields = none; error = some node_02_unavailable })
foreign_peer w false = ds41_state w (pos 1)

-- What the decision is made from.
pub record Facts : Type 0 where
  pub transient : String
  pub shared : Result SharedComputeReceipt
  pub pair_running : Bool
  pub owner : Result ClusterOwner
  pub survey : Survey
  pub local_foreign : Presence
  pub peer_foreign : Presence

abbrev pub is_unknown : Presence → Bool
is_unknown p = has_error p.error || p.state == presence_unknown

unfoldable pub any_unknown : Facts → Bool
any_unknown f = f.survey.any_unknown || is_unknown f.local_foreign || is_unknown f.peer_foreign

unfoldable pub foreign_active : Facts → Bool
foreign_active f =
    f.local_foreign.state == presence_active || f.peer_foreign.state == presence_active

abbrev pub owner_matches : SharedComputeReceipt → Result ClusterOwner → Bool
owner_matches r (ok o) = is_ok (shared_matches_glm r o)
owner_matches r (err e) = false

abbrev pub occupied : Facts → SharedComputeReceipt → LifecycleSnapshot → LifecycleSnapshot
occupied f r b =
    if not (r.owner == "DS41") || not f.survey.all_off
    then record b {
      state = "ERROR";
      detail = "DS41 is active but persistent shared ownership is inconsistent";
    }
    else record b { state = "OFF"; detail = "GLM OFF; cluster occupied by DS41" }

abbrev pub partial : SharedComputeReceipt → LifecycleSnapshot → LifecycleSnapshot
partial r b = record b {
  state = "ERROR";
  last_error =
      if b.last_error == ""
      then sprint (
          "partial lifecycle state: shared=" ∷ r.owner ∷ "/" ∷ r.state ∷ " coordinator="
          ∷ b.coordinator ∷ [])
      else b.last_error;
}

-- The last part of `Snapshot`, with the answer of the coordinator.
unfoldable pub settled : Facts → SharedComputeReceipt → Bool → LifecycleSnapshot → LifecycleSnapshot
settled f r backend_ready b =
    if f.survey.all_ready
      && backend_ready
      && r.owner == "GLM"
      && r.state == "READY"
      && owner_matches r f.owner
    then record b {
      state = "READY";
      readiness = "HEALTHY+READINESS_INFERENCE_PASSED";
      start_allowed = false;
    }
    else if f.survey.all_off && not f.pair_running && r.owner == "NONE" && r.state == "OFF"
    then record b {
      state = "OFF";
      start_allowed = true;
      detail = "GLM inference unloaded; gateway remains available";
    }
    else if r.owner == "GLM" && (r.state == "STARTING" || r.state == "RUNNING")
    then record b { state = "STARTING"; detail = "GLM ranks/coordinator are not yet fully READY" }
    else partial r b

abbrev pub backend_ready : Services → Bool → M Bool
backend_ready s true = backend_health s
backend_ready s false = pure false

unfoldable pub with_receipt :
    Services → Facts → LifecycleSnapshot → Result SharedComputeReceipt → M LifecycleSnapshot
unfolding settled foreign_active
with_receipt s f b (err e) = pure b
with_receipt s f b (ok r) =
    if not (f.transient == "")
    then pure b
    else if foreign_active f
    then pure (occupied f r b)
    else if r.state == "UNRECONCILED"
    then pure (record b {
      state = "ERROR";
      detail = "cluster ownership is UNRECONCILED; verify both nodes before any start";
    })
    else backend_ready s f.pair_running >>= λ ready. pure (settled f r ready b)

unfoldable pub decide : Services → Facts → LifecycleSnapshot → M LifecycleSnapshot
unfolding with_receipt any_unknown
decide s f b =
    if any_unknown f
    then pure (record b {
      state = if f.transient == "" then "ERROR" else b.state;
      detail = "cluster peer or model ownership is UNKNOWN; start/false-OFF refused";
    })
    else with_receipt s f b f.shared

abbrev pub shared_owner : Result SharedComputeReceipt → String
shared_owner (ok r) = r.owner
shared_owner (err e) = "UNKNOWN"

abbrev pub shared_error : String → Result SharedComputeReceipt → String
shared_error last (ok r) = last
shared_error last (err e) = sprint ("shared cluster receipt unavailable: " ∷ e ∷ [])

abbrev pub running_pair : Result Fields → Bool
running_pair (ok v) = lifecycle_unit_running v
running_pair (err e) = false

-- The snapshot before the decision.
unfoldable pub begun : Lifecycle → ℤ → String → Facts → LifecycleSnapshot
unfolding foreign_active
begun m drain now f = record {
  state = if m.transient == "" then "ERROR" else m.transient;
  detail = m.detail;
  operation = m.operation;
  cluster_owner = if foreign_active f then "DS41" else shared_owner f.shared;
  start_allowed = false;
  drain_seconds = drain;
  coordinator = if f.pair_running then "RUNNING" else "OFF";
  readiness = "NOT_READY";
  nodes = f.survey.nodes;
  updated = now;
  last_error = shared_error m.last_error f.shared;
  last_readiness = m.last_readiness;
}

abbrev pub clock : World → M String
clock w h = (ok (w.now h.history), h)

unfoldable pub gathered :
    World
    → Services
    → Lifecycle
    → Result SharedComputeReceipt
    → Result Fields
    → Result ClusterOwner
    → M Facts
unfolding surveys
gathered w s m shared pair owner = do
  both ← surveys w s owner
  local_foreign ← ds41_state w (pos 0)
  peer_foreign ← foreign_peer w both.peer_unknown
  pure (record {
    transient = m.transient;
    shared = shared;
    pair_running = running_pair pair;
    owner = owner;
    survey = both;
    local_foreign = local_foreign;
    peer_foreign = peer_foreign;
  })

unfoldable pub facts : World → Services → ClusterConfig → Lifecycle → M Facts
unfolding gathered
facts w s cfg m = do
  shared ← attempt (read_shared w cfg)
  pair ← attempt (pair_state s)
  owner ← attempt (read_owner w)
  gathered w s m shared pair owner

-- (*modelLifecycle).Snapshot
unfoldable pub snapshot : World → Services → ClusterConfig → ℤ → Lifecycle → M LifecycleSnapshot
unfolding facts decide begun
snapshot w s cfg drain m = do now ← clock w; f ← facts w s cfg m; decide s f (begun m drain now f)
