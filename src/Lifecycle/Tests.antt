-- ===== src/Lifecycle/Tests.antt =====
-- Runs of the gateway's operations on the hosts of Lifecycle/Samples.
use strix_halo_cluster_glm.Base.{
  String, [], ◌∷◌, ◌≡◌, ◌≢◌, ◌↔◌, ◌≤◌, length, refl, true, false, Result, ok, some, none, lookup,
  insert, sprint, split, cut, fields, trim_quotes, is_hex32, sprintf_d, contains, has_prefix,
  trim_suffix, parse_int, is_abs, join_path, after_last, trim_space, parse_saturated, join, clean,
  sort_texts, dir_of,
}
use strix_halo_cluster_glm.Base.Integer.{pos}
use strix_halo_cluster_glm.Cluster.Lease.{
  checked_receipt, read_shared_compute, shared_from_glm, shared_off, shared_start_allowed,
  shared_matches_glm,
}
use strix_halo_cluster_glm.Cluster.Host.{
  ◌>>=◌, ◌>>◌, command, save, publish, read_shared, read_owner, stored_owner, archive_poison,
  with_lock, fresh_nonce, fresh_epoch, read_manifest, poisoned, health_rounds, controller_health,
}
use strix_halo_cluster_glm.Cluster.Trace.{Extends}
use strix_halo_cluster_glm.Cluster.Units.{
  verify_unit, unit_active, stop_args, inspect_all, unit, field,
}
use strix_halo_cluster_glm.Cluster.Stop.{stop_units}
use strix_halo_cluster_glm.Cluster.Stop
use strix_halo_cluster_glm.Cluster.Start
use strix_halo_cluster_glm.Cluster.Control
use strix_halo_cluster_glm.Cluster.Verify.{verify, preflight}
use strix_halo_cluster_glm.Cluster.Samples.{config, cold, warm}
use strix_halo_cluster_glm.Lifecycle.Services.{
  run_local, backend_health, infer, read_meminfo, health_polls,
}
use strix_halo_cluster_glm.Lifecycle.Memory.{node_memory}
use strix_halo_cluster_glm.Lifecycle.Presence.{
  Presence, parse_systemd_show, ds41_state, pair_state, unit_presence, lifecycle_unit_running,
}
use strix_halo_cluster_glm.Lifecycle.Snapshot.{Lifecycle, LifecycleSnapshot, snapshot}
use strix_halo_cluster_glm.Lifecycle.Operation.{
  idle, begin_start, begin_stop, set_detail, finish_operation,
}
use strix_halo_cluster_glm.Lifecycle.Start.{start, stop_pair}
use strix_halo_cluster_glm.Lifecycle.Stop.{stop}
use strix_halo_cluster_glm.Lifecycle.Presence.Stopped.{IsDown, unit_presence-IsDown}
use strix_halo_cluster_glm.Lifecycle.Snapshot.Off.{Allowed, snapshot-Allowed}
use strix_halo_cluster_glm.Lifecycle.Snapshot.Looks.{IsLook, snapshot-Looks}
use strix_halo_cluster_glm.Lifecycle.Operation.Single.{
  Gateway, Reaches, moved, begun, started, one_operation,
}
use strix_halo_cluster_glm.Lifecycle.Start.Published.{Served, start-Served}
use strix_halo_cluster_glm.Lifecycle.Stop.Unloaded.{Cleared, stop-Clears}
use strix_halo_cluster_glm.Lifecycle.Samples.{gateway_hosts, services}

abbrev answer_of : Result Lifecycle → Lifecycle
answer_of (ok m) = m
answer_of _ = idle

abbrev done : Lifecycle
done = record idle {
  detail = "both ranks and coordinator READY";
  last_readiness = "HTTP200 choices=1";
}

start_run : (start gateway_hosts services config idle cold).0 ≡ ok done
unfolding start unit_active sort_texts verify preflight ◌>>=◌ ◌>>◌ command save publish read_shared
    read_owner stored_owner archive_poison fresh_nonce fresh_epoch read_manifest poisoned with_lock
    health_rounds controller_health inspect_all unit field stop_units lookup insert sprint split cut
    fields trim_quotes is_hex32 sprintf_d contains has_prefix is_abs join_path after_last trim_space
    parse_saturated join clean dir_of shared_from_glm shared_off shared_matches_glm
    shared_start_allowed checked_receipt read_shared_compute Control.start Start.start ds41_state
    run_local backend_health infer health_polls set_detail finish_operation
start_run = refl

start-Served_example :
    Served gateway_hosts services config (start gateway_hosts services config idle cold).1
start-Served_example = start-Served gateway_hosts services config idle done cold start_run refl

abbrev unloaded : Lifecycle
unloaded = record idle { detail = "GLM OFF; coordinator and both ranks verified stopped" }

stop_run : (stop gateway_hosts services config (pos 30) idle warm).0 ≡ ok unloaded
unfolding stop unit_active stop_args sort_texts ◌>>=◌ ◌>>◌ command save publish read_shared
    read_owner stored_owner archive_poison fresh_nonce fresh_epoch poisoned with_lock inspect_all
    unit field stop_units lookup insert sprint split cut fields trim_quotes trim_suffix parse_int
    is_hex32 sprintf_d contains has_prefix is_abs join_path after_last trim_space parse_saturated
    join clean dir_of shared_from_glm shared_off shared_matches_glm shared_start_allowed
    checked_receipt read_shared_compute Control.stop Stop.stop ds41_state pair_state run_local
    backend_health read_meminfo node_memory lifecycle_unit_running stop_pair set_detail
    finish_operation snapshot verify_unit
stop_run = refl

stop-Clears_example : Cleared config warm (stop gateway_hosts services config (pos 30) idle warm).1
stop-Clears_example =
    stop-Clears gateway_hosts services config (pos 30) idle unloaded warm stop_run refl

abbrev seen_of : Result LifecycleSnapshot → LifecycleSnapshot
seen_of (ok x) = x
seen_of _ = record {
  state = "";
  detail = "";
  operation = "";
  cluster_owner = "";
  start_allowed = false;
  drain_seconds = pos 0;
  coordinator = "";
  readiness = "";
  nodes = [];
  updated = "";
  last_error = "";
  last_readiness = "";
}

abbrev seen : LifecycleSnapshot
seen = seen_of (snapshot gateway_hosts services config (pos 30) idle cold).0

cold_seen : (snapshot gateway_hosts services config (pos 30) idle cold).0 ≡ ok seen
unfolding ◌>>=◌ ◌>>◌ command read_shared read_owner field lookup insert sprint split cut fields
    trim_suffix parse_int sprintf_d contains has_prefix trim_space shared_off read_shared_compute
    ds41_state pair_state run_local backend_health read_meminfo node_memory lifecycle_unit_running
    snapshot verify_unit
cold_seen = refl

seen_allowed : seen.start_allowed ≡ true
unfolding ◌>>=◌ ◌>>◌ command read_shared read_owner field lookup insert sprint split cut fields
    trim_suffix parse_int sprintf_d contains has_prefix trim_space shared_off read_shared_compute
    ds41_state pair_state run_local backend_health read_meminfo node_memory lifecycle_unit_running
    snapshot verify_unit
seen_allowed = refl

snapshot-Allowed_example : Allowed gateway_hosts services config idle cold seen
snapshot-Allowed_example =
    snapshot-Allowed gateway_hosts services config idle (pos 30) cold seen cold_seen seen_allowed

snapshot-Looks_example :
    Extends IsLook warm (snapshot gateway_hosts services config (pos 30) idle warm).1
snapshot-Looks_example = snapshot-Looks gateway_hosts services config (pos 30) idle warm

abbrev ds41 : Presence
ds41 = record {
  state = "OFF_VERIFIED";
  fields =
      some
        (parse_systemd_show "LoadState=loaded\nControlGroup=\nActiveState=inactive\nMainPID=0\n");
  error = none;
}

ds41_run : (unit_presence gateway_hosts (pos 0) "ds41-rank0.service" cold).0 ≡ ok ds41
unfolding unit_presence ◌>>=◌ command field lookup insert split cut sprint
ds41_run = refl

unit_presence-IsDown_example : IsDown gateway_hosts (pos 0) "ds41-rank0.service" cold ds41
unit_presence-IsDown_example =
    unit_presence-IsDown gateway_hosts (pos 0) "ds41-rank0.service" cold ds41 ds41_run refl

abbrev starting : Lifecycle
starting = record idle {
  operation = "start";
  transient = "STARTING";
  detail = "validating DS41 and persistent cluster ownership";
}

abbrev busy : Gateway
busy = record { lifecycle = starting; running = "start" ∷ [] }

idle_start : begin_start idle ≡ some starting
unfolding begin_start
idle_start = refl

busy_reached : Reaches (pos 30) busy
busy_reached = moved _ busy begun (started idle starting [] idle_start)

one_operation_example :
    (length busy.running ≤ 1)
    × ((begin_start busy.lifecycle ≡ none) ↔ (busy.running ≢ []))
    × ((begin_stop (pos 30) busy.lifecycle ≡ none) ↔ (busy.running ≢ []))
    × ((busy.lifecycle.transient ≡ "") ↔ (busy.running ≡ []))
one_operation_example = one_operation (pos 30) busy busy_reached

abbrev engine_up : String
engine_up = "LoadState=loaded\nControlGroup=\nActiveState=active\nMainPID=42\n"
