-- ===== src/Lifecycle/Survey.antt =====
-- lifecycle_native.go: the loop of Snapshot over the two ranks.
use strix_halo_cluster_glm.Base.{
  String, List, [], ◌∷◌, ◌++◌, ◌+◌, Bool, true, false, not, ◌&&◌, ◌||◌, Option, none, some, Result,
  ok, err, is_ok, ◌==◌, if◌then◌else◌, sprint, sprintf_d,
}
use strix_halo_cluster_glm.Base.Integer.{ℤ, pos, int_eq}
use strix_halo_cluster_glm.Cluster.Owner.{OwnedUnit, ClusterOwner}
use strix_halo_cluster_glm.Cluster.Host.{World, M, pure, attempt, ◌>>=◌}
use strix_halo_cluster_glm.Cluster.Units.{Fields, field, verify_unit}
use strix_halo_cluster_glm.Lifecycle.Services.{Services}
use strix_halo_cluster_glm.Lifecycle.Memory.{node_memory}
use strix_halo_cluster_glm.Lifecycle.Presence.{
  Presence, presence_active, presence_off, presence_unknown, unit_presence,
}

pub record LifecycleNode : Type 0 where
  pub rank : ℤ
  pub host : String
  pub engine_state : String
  pub engine_pid : String
  pub invocation_id : String
  pub mem_available_bytes : ℤ
  pub swap_free_bytes : ℤ
  pub error : String

-- What the loop over the ranks collects.
pub record Survey : Type 0 where
  pub nodes : List LifecycleNode
  pub all_off : Bool
  pub all_ready : Bool
  pub any_unknown : Bool
  pub peer_unknown : Bool

abbrev pub if_rank : ℤ → OwnedUnit → Option OwnedUnit
if_rank rank u = if int_eq u.rank rank then some u else none

abbrev pub or_last : Option OwnedUnit → Option OwnedUnit → Option OwnedUnit
or_last none before = before
or_last (some u) before = some u

-- The map from a rank to its unit: the last unit of a rank stands.
unfoldable pub unit_of : ℤ → List OwnedUnit → Option OwnedUnit
unit_of rank [] = none
unit_of rank (u ∷ us) = or_last (unit_of rank us) (if_rank rank u)

unfoldable pub is_owned : Option OwnedUnit → Option Fields → Bool
is_owned (some u) (some raw) = is_ok (verify_unit u raw)
is_owned u raw = false

abbrev pub text_of : Option String → String
text_of none = ""
text_of (some e) = e

abbrev pub has_error : Option String → Bool
has_error none = false
has_error (some e) = true

abbrev pub raw_field : String → Option Fields → String
raw_field key none = ""
raw_field key (some v) = field key v

abbrev pub node_02_unavailable : String
node_02_unavailable = "NODE02 unavailable earlier in this lifecycle snapshot"

-- The unit of a rank, and whether the peer can still be asked.
abbrev pub asked : World → ℤ → Bool → Bool → M (Presence × Bool)
asked w rank peer true =
    pure
      (record { state = presence_unknown; fields = none; error = some node_02_unavailable }, peer)
asked w rank peer false = do
  p ← unit_presence w rank (sprint ("strixglm-rank" ∷ sprintf_d rank ∷ ".service" ∷ []))
  pure (p, peer || (int_eq rank (pos 1) && has_error p.error))

abbrev pub node_host : ℤ → String
node_host (pos n) = sprint ("0" ∷ sprintf_d (pos (n + 1)) ∷ "-EVO-X3" ∷ [])
node_host rank = sprint ("0" ∷ sprintf_d rank ∷ "-EVO-X3" ∷ [])

-- A rank's node before its memory is read.
unfoldable pub node_of : ℤ → Presence → Bool → LifecycleNode
node_of rank p owned = record {
  rank = rank;
  host = node_host rank;
  engine_state = p.state;
  engine_pid = raw_field "MainPID" p.fields;
  invocation_id = raw_field "InvocationID" p.fields;
  mem_available_bytes = pos 0;
  swap_free_bytes = pos 0;
  error =
      if p.state == presence_active && not owned && text_of p.error == ""
      then "active GLM unit does not match current owner receipt"
      else text_of p.error;
}

abbrev pub with_memory : ℤ → Bool → LifecycleNode → Result (ℤ × ℤ) → LifecycleNode × Bool
with_memory rank peer n (ok (mem, swap)) =
    (record n { mem_available_bytes = mem; swap_free_bytes = swap }, peer)
with_memory rank peer n (err e) =
    if n.error == "" then (record n { error = e }, peer || int_eq rank (pos 1)) else (n, peer)

abbrev pub measured_node :
    World → Services → ℤ → Bool → LifecycleNode → Bool → M (LifecycleNode × Bool)
measured_node w s rank peer n true = do
  r ← attempt (node_memory w s rank)
  pure (with_memory rank peer n r)
measured_node w s rank peer n false = pure (n, peer)

-- The survey with one more node.
abbrev pub surveyed : Survey → Presence → Bool → LifecycleNode × Bool → Survey
surveyed sv p mine y = record {
  nodes = sv.nodes ++ y.0 ∷ [];
  all_off = sv.all_off && p.state == presence_off;
  all_ready = sv.all_ready && p.state == presence_active && mine;
  any_unknown = sv.any_unknown || p.state == presence_unknown;
  peer_unknown = y.1;
}

-- One round of the loop over the ranks.
unfoldable pub survey_rank : World → Services → List OwnedUnit → ℤ → Survey → M Survey
unfolding node_of is_owned unit_of
survey_rank w s owned rank sv = do
  x ← asked w rank sv.peer_unknown (int_eq rank (pos 1) && sv.peer_unknown)
  let mine = is_owned (unit_of rank owned) x.0.fields
  y ← measured_node w s rank x.1 (node_of rank x.0 mine) (int_eq rank (pos 0) || not x.1)
  pure (surveyed sv x.0 mine y)

abbrev pub units_of : Result ClusterOwner → List OwnedUnit
units_of (ok o) = o.units
units_of (err e) = []

abbrev pub is_ready : Result ClusterOwner → Bool
is_ready (ok o) = o.state == "ready"
is_ready (err e) = false

abbrev pub no_survey : Bool → Survey
no_survey ready = record {
  nodes = [];
  all_off = true;
  all_ready = ready;
  any_unknown = false;
  peer_unknown = false;
}

-- The loop over the ranks.
unfoldable pub surveys : World → Services → Result ClusterOwner → M Survey
unfolding survey_rank
surveys w s owner = do
  first ← survey_rank w s (units_of owner) (pos 0) (no_survey (is_ready owner))
  survey_rank w s (units_of owner) (pos 1) first
