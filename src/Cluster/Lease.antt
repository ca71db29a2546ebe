-- ===== src/Cluster/Lease.antt =====
-- cluster_lease.go: the receipt that the model services of the two hosts share. Files are values
-- here: `Stored` says what a read finds, and the caller's monad (Cluster/Host) performs the write.
-- Go's %q is the text between quotes.
pub mod Files
use strix_halo_cluster_glm.Base.{
  String, List, [], ◌∷◌, Option, none, some, Bool, true, false, not, ◌||◌, ◌==◌, if◌then◌else◌,
  Result, ok, err, ◌>>◌, refuse, lookup, insert, sprint, sprintf_d, is_abs, clean, any,
}
use strix_halo_cluster_glm.Cluster.Owner.{OwnedUnit, ClusterOwner}

abbrev pub shared_compute_schema : String
shared_compute_schema = "strix-cluster-compute-v2"

pub record SharedComputeRank : Type 0 where
  pub unit : String
  pub invocation_id : String
  pub nonce : String

-- `ranks` is `none` for a nil map.
pub record SharedComputeReceipt : Type 0 where
  pub schema : String
  pub owner : String
  pub state : String
  pub epoch : String
  pub detail : String
  pub updated : String
  pub ranks : Option (List (String × SharedComputeRank))

-- What reading and decoding a JSON file gives. `unreadable` is any error but "does not exist". A file
-- that the program wrote holds the record itself: its texts are code points, which JSON keeps.
pub data Stored {ℓ} (A : Type ℓ) : Type ℓ where
  missing : Stored A
  unreadable : String → Stored A
  holding : A → Stored A

abbrev pub is_none {ℓ} : {A : Type ℓ} → Option A → Bool
is_none none = true
is_none (some a) = false

abbrev pub entries : Option (List (String × SharedComputeRank)) → List (String × SharedComputeRank)
entries none = []
entries (some m) = m

unfoldable pub decoded_receipt : SharedComputeReceipt → Result SharedComputeReceipt
decoded_receipt r = do
  refuse
      (not (r.schema == shared_compute_schema) || r.owner == "" || r.state == "" || is_none r.ranks)
      "invalid shared compute receipt"
  ok r

abbrev pub found_receipt : Stored SharedComputeReceipt → Result SharedComputeReceipt
found_receipt missing = err "no such file or directory"
found_receipt (unreadable e) = err e
found_receipt (holding r) = decoded_receipt r

unfoldable pub read_shared_compute :
    String → Stored SharedComputeReceipt → Result SharedComputeReceipt
unfolding decoded_receipt
read_shared_compute dir file = do
  refuse (dir == "") "shared compute state is not configured"
  found_receipt file

abbrev pub known_owners : List String
known_owners = "NONE" ∷ "GLM" ∷ "DS41" ∷ []

abbrev pub known_states : List String
known_states = "OFF" ∷ "STARTING" ∷ "RUNNING" ∷ "READY" ∷ "STOPPING" ∷ "UNRECONCILED" ∷ []

-- The receipt that `writeSharedCompute` hands to the atomic write at the time `now`.
unfoldable pub checked_receipt :
    String → String → SharedComputeReceipt → Result SharedComputeReceipt
checked_receipt now dir r = do
  refuse (dir == "" || not (is_abs dir) || not (clean dir == dir))
      "invalid shared compute state directory"
  let schema = if r.schema == "" then shared_compute_schema else r.schema
  refuse (not (schema == shared_compute_schema)) "invalid shared compute schema"
  refuse (not (any (λ o. r.owner == o) known_owners))
      (sprint ("invalid shared compute owner \"" ∷ r.owner ∷ "\"" ∷ []))
  refuse (not (any (λ s. r.state == s) known_states))
      (sprint ("invalid shared compute state \"" ∷ r.state ∷ "\"" ∷ []))
  ok (record r { schema = schema; ranks = some (entries r.ranks); updated = now })

unfoldable pub glm_ranks :
    List (String × SharedComputeRank) → List OwnedUnit → List (String × SharedComputeRank)
glm_ranks m [] = m
glm_ranks m (u ∷ us) =
    let entry : SharedComputeRank = record {
      unit = sprint (u.name ∷ ".service" ∷ []);
      invocation_id = u.invocation_id;
      nonce = u.nonce;
    } in
    glm_ranks (insert (sprintf_d u.rank) entry m) us

unfoldable pub shared_from_glm : String → ClusterOwner → String → SharedComputeReceipt
unfolding glm_ranks
shared_from_glm state o detail = record {
  schema = shared_compute_schema;
  owner = "GLM";
  state = state;
  epoch = o.epoch;
  detail = detail;
  updated = "";
  ranks = some (glm_ranks [] o.units);
}

unfoldable pub shared_off : String → SharedComputeReceipt
shared_off detail = record {
  schema = shared_compute_schema;
  owner = "NONE";
  state = "OFF";
  epoch = "";
  detail = detail;
  updated = "";
  ranks = some [];
}

unfoldable pub shared_start_allowed : SharedComputeReceipt → Result (Unit {0})
shared_start_allowed r =
    refuse
      (not (r.schema == shared_compute_schema) || not (r.owner == "NONE") || not (r.state == "OFF"))
      (sprint ("cluster not reconciled OFF: owner=" ∷ r.owner ∷ " state=" ∷ r.state ∷ []))

-- `!ok || got.Unit != … || got.InvocationID != … || got.Nonce != …`
unfoldable pub rank_differs : Option SharedComputeRank → OwnedUnit → Bool
rank_differs none u = true
rank_differs (some got) u =
    not (got.unit == sprint (u.name ∷ ".service" ∷ []))
    || not (got.invocation_id == u.invocation_id)
    || not (got.nonce == u.nonce)

unfoldable pub ranks_match : List (String × SharedComputeRank) → List OwnedUnit → Result (Unit {0})
unfolding rank_differs
ranks_match m [] = ok tt
ranks_match m (u ∷ us) = do
  refuse (rank_differs (lookup (sprintf_d u.rank) m) u)
      (sprint ("shared GLM rank" ∷ sprintf_d u.rank ∷ " identity mismatch" ∷ []))
  ranks_match m us

unfoldable pub shared_matches_glm : SharedComputeReceipt → ClusterOwner → Result (Unit {0})
unfolding ranks_match
shared_matches_glm r o = do
  refuse
      (not (r.schema == shared_compute_schema)
        || not (r.owner == "GLM")
        || not (r.epoch == o.epoch))
      (sprint (
        "shared GLM receipt mismatch: owner=" ∷ r.owner ∷ " state=" ∷ r.state ∷ " epoch=" ∷ r.epoch
        ∷ " want=" ∷ o.epoch ∷ []))
  ranks_match (entries r.ranks) o.units
