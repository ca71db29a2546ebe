-- ===== src/Cluster/Tests.antt =====
-- Runs of the controller on the hosts of Cluster/Samples.
use strix_halo_cluster_glm.Base.{
  String, [], ◌∷◌, ◌≡◌, ◌≢◌, refl, ◌⊎◌, inr, ◌↔◌, false, ok, err, All, length, ◌≤◌, lookup, insert,
  sprint, split, cut, fields, trim_quotes, is_hex32, sprintf_d, contains, has_prefix, is_abs,
  join_path, after_last, trim_space, parse_saturated, join, clean, sort_texts,
}
use strix_halo_cluster_glm.Base.Integer.{pos}
use strix_halo_cluster_glm.Cluster.Owner.{OwnedUnit, ClusterOwner}
use strix_halo_cluster_glm.Cluster.Lease.{
  SharedComputeReceipt, holding, checked_receipt, read_shared_compute, shared_from_glm, shared_off,
  shared_start_allowed, shared_matches_glm,
}
use strix_halo_cluster_glm.Cluster.Lease.Files.{start_allowed-not-matches}
use strix_halo_cluster_glm.Cluster.Receipts.{matches-shared_from_glm}
use strix_halo_cluster_glm.Cluster.Host.{
  ◌>>=◌, ◌>>◌, command, save, publish, read_shared, read_owner, stored_owner, archive_poison,
  fresh_nonce, fresh_epoch, read_manifest, poisoned, health_rounds, controller_health,
}
use strix_halo_cluster_glm.Cluster.Trace.{Extends}
use strix_halo_cluster_glm.Cluster.Units.{
  valid_units, verify_unit, unit_active, stop_args, Fields, inspect_all, unit, field,
}
use strix_halo_cluster_glm.Cluster.Stop.{stop_units, stop}
use strix_halo_cluster_glm.Cluster.Start.{start}
use strix_halo_cluster_glm.Cluster.Verify.{verify, preflight}
use strix_halo_cluster_glm.Cluster.Units.Names.{
  IsBound, Distinct, valid_units_iff, valid_units-length-le,
}
use strix_halo_cluster_glm.Cluster.Units.Identity.{Owns, verify_unit_iff}
use strix_halo_cluster_glm.Cluster.Stop.Proven.{
  IsQuery, Touches, SeenStopped, stop_units-Touches, stop_units_refused, stop_units-SeenStopped,
}
use strix_halo_cluster_glm.Cluster.Stop.Release.{Admits, Stopped, stop-Stopped}
use strix_halo_cluster_glm.Cluster.Stop.Success.{stop-recorded, stop-Admits}
use strix_halo_cluster_glm.Cluster.Start.Gates.{Refuses, start-Refuses}
use strix_halo_cluster_glm.Cluster.Start.Launched.{IsLaunched}
use strix_halo_cluster_glm.Cluster.Start.Pair.{start-ready, start-matches}
use strix_halo_cluster_glm.Cluster.Samples.{
  hosts, config, cold, warm, foreign, units, ready_owner, pair_receipt, key,
}

warm_run : (stop hosts config warm).0 ≡ ok tt
unfolding stop unit_active stop_args ◌>>=◌ ◌>>◌ command save publish read_shared read_owner
    stored_owner archive_poison fresh_nonce fresh_epoch read_manifest poisoned health_rounds
    controller_health inspect_all unit field stop_units lookup insert sprint split cut fields
    trim_quotes is_hex32 sprintf_d contains has_prefix is_abs join_path after_last trim_space
    parse_saturated join clean shared_from_glm shared_off shared_matches_glm shared_start_allowed
    checked_receipt read_shared_compute
warm_run = refl

cold_run : (start hosts config cold).0 ≡ ok tt
unfolding start unit_active sort_texts verify preflight ◌>>=◌ ◌>>◌ command save publish read_shared
    read_owner stored_owner archive_poison fresh_nonce fresh_epoch read_manifest poisoned
    health_rounds controller_health inspect_all unit field stop_units lookup insert sprint split cut
    fields trim_quotes is_hex32 sprintf_d contains has_prefix is_abs join_path after_last trim_space
    parse_saturated join clean shared_from_glm shared_off shared_matches_glm shared_start_allowed
    checked_receipt read_shared_compute
cold_run = refl

warm_open : Admits (stop hosts config warm).1.shared
unfolding stop unit_active stop_args ◌>>=◌ ◌>>◌ command save publish read_shared read_owner
    stored_owner archive_poison fresh_nonce fresh_epoch read_manifest poisoned health_rounds
    controller_health inspect_all unit field stop_units lookup insert sprint split cut fields
    trim_quotes is_hex32 sprintf_d contains has_prefix is_abs join_path after_last trim_space
    parse_saturated join clean shared_from_glm shared_off shared_matches_glm shared_start_allowed
    checked_receipt read_shared_compute
warm_open = refl

stop-Stopped_example : Admits warm.shared ⊎ Stopped hosts warm (stop hosts config warm).1
stop-Stopped_example = stop-Stopped hosts config warm warm_open

warm_read : read_shared_compute config.shared_state_dir warm.shared ≡ ok pair_receipt
unfolding read_shared_compute shared_from_glm
warm_read = refl

stop-Admits_example : Admits (stop hosts config warm).1.shared
unfolding shared_from_glm
stop-Admits_example = stop-Admits hosts config warm pair_receipt warm_run refl warm_read refl

stop-recorded_example :
    (o : ClusterOwner) × (time : String) × (warm.owner ≡ holding o)
    × ((stop hosts config warm).1.owner
        ≡ holding (record o { state = "stopped"; error = ""; updated = time }))
    × ((stop hosts config warm).1.poison ≡ false)
stop-recorded_example = stop-recorded hosts config warm warm_run

start-Refuses_example : Refuses (start hosts config) warm
start-Refuses_example = start-Refuses hosts config warm (inr (inr refl))

start-ready_example :
    (o : ClusterOwner) × ((start hosts config cold).1.owner ≡ holding o)
    × (o.state ≡ "ready")
    × ((u v : OwnedUnit) × (o.units ≡ u ∷ v ∷ [])
        × IsLaunched hosts config o.epoch (pos 0) u (start hosts config cold).1
        × IsLaunched hosts config o.epoch (pos 1) v (start hosts config cold).1)
    × (valid_units o.units false ≡ ok tt)
start-ready_example = start-ready hosts config cold cold_run

start-matches_example :
    (o : ClusterOwner) × (r : SharedComputeReceipt) × ((start hosts config cold).1.owner
      ≡ holding o)
    × ((start hosts config cold).1.shared ≡ holding r)
    × (r.state ≡ "RUNNING")
    × (shared_matches_glm r o ≡ ok tt)
start-matches_example = start-matches hosts config cold cold_run refl

warm_units_run : (stop_units hosts units false warm).0 ≡ ok tt
unfolding unit_active stop_args ◌>>=◌ ◌>>◌ command save publish read_shared read_owner stored_owner
    archive_poison fresh_nonce fresh_epoch read_manifest poisoned health_rounds controller_health
    inspect_all unit field stop_units lookup insert sprint split cut fields trim_quotes is_hex32
    sprintf_d contains has_prefix is_abs join_path after_last trim_space parse_saturated join clean
    shared_from_glm shared_off shared_matches_glm shared_start_allowed checked_receipt
    read_shared_compute
warm_units_run = refl

stop_units-SeenStopped_example :
    All (SeenStopped (IsQuery units) hosts (stop_units hosts units false warm).1) units
stop_units-SeenStopped_example = stop_units-SeenStopped hosts units false warm warm_units_run

stop_units-Touches_example : Extends (Touches units) warm (stop_units hosts units false warm).1
stop_units-Touches_example = stop_units-Touches hosts units false warm

foreign_refused : (inspect_all hosts foreign false warm).0 ≡ err "invalid owned unit binding"
unfolding inspect_all ◌>>=◌ ◌>>◌ sprint sprintf_d is_hex32
foreign_refused = refl

stop_units_refused_example :
    ((stop_units hosts foreign false warm).0 ≡ err "invalid owned unit binding")
    × Extends (IsQuery foreign) warm (stop_units hosts foreign false warm).1
stop_units_refused_example =
    stop_units_refused hosts foreign false warm "invalid owned unit binding" foreign_refused

units_valid : valid_units units false ≡ ok tt
unfolding valid_units sprint sprintf_d is_hex32
units_valid = refl

matches-shared_from_glm_example :
    shared_matches_glm
      (record (shared_from_glm "READY" ready_owner "served") { updated = "now" })
      ready_owner
    ≡ ok tt
matches-shared_from_glm_example =
    matches-shared_from_glm ready_owner "READY" "served" "now" units_valid

valid_units_iff_example : (valid_units units false ≡ ok tt) ↔ (All IsBound units × Distinct units)
valid_units_iff_example = valid_units_iff units

valid_units-length-le_example : length units ≤ 2
valid_units-length-le_example = valid_units-length-le units units_valid

abbrev running_fields : Fields
running_fields =
    ("ActiveState", "active")
    ∷ ("MainPID", "42")
    ∷ ("InvocationID", key)
    ∷ ("Environment", "A=1 \"CIRU_OWNER_NONCE=0123456789abcdef0123456789abcdef\"")
    ∷ []

abbrev first_unit : OwnedUnit
first_unit = record { rank = pos 0; name = "strixglm-rank0"; nonce = key; invocation_id = key }

verify_unit_iff_example :
    (verify_unit first_unit running_fields ≡ ok tt)
    ↔ ((unit_active running_fields ≡ false) ⊎ Owns first_unit running_fields)
verify_unit_iff_example = verify_unit_iff first_unit running_fields

running_owned : verify_unit first_unit running_fields ≡ ok tt
unfolding verify_unit unit_active field lookup fields trim_quotes is_hex32 sprint
running_owned = refl

abbrev stored_off : SharedComputeReceipt
stored_off = record (shared_off "off") { updated = "now" }

checked_off : checked_receipt "now" "/srv/shared" (shared_off "off") ≡ ok stored_off
unfolding checked_receipt shared_off clean is_abs join split has_prefix
checked_off = refl

off_allowed : shared_start_allowed (shared_off "off") ≡ ok tt
unfolding shared_start_allowed shared_off
off_allowed = refl

start_allowed-not-matches_example : shared_matches_glm (shared_off "off") ready_owner ≢ ok tt
start_allowed-not-matches_example =
    start_allowed-not-matches (shared_off "off") ready_owner off_allowed
