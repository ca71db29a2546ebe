-- ===== src/Cluster/Start.antt =====
-- controller.go: launching a rank, waiting for the pair, and starting the pair. `start` undoes a
-- start that failed behind its reservation, so its body hands back the owner it had reached.
pub mod Gates
pub mod Grows
pub mod Launched
pub mod Ready
pub mod Pair
use strix_halo_cluster_glm.Base.{
  String, List, [], ◌∷◌, ◌++◌, ℕ, zero, suc, Bool, true, false, not, ◌&&◌, Result, ok, err, ◌==◌,
  if◌then◌else◌, sprint, sprintf_d, join, join_path, has_prefix,
}
use strix_halo_cluster_glm.Base.Integer.{ℤ, pos}
use strix_halo_cluster_glm.Cluster.Owner.{OwnedUnit, ClusterOwner, ClusterConfig}
use strix_halo_cluster_glm.Cluster.Lease.{
  SharedComputeReceipt, Stored, missing, unreadable, holding, shared_from_glm, shared_off,
  shared_start_allowed,
}
use strix_halo_cluster_glm.Cluster.Host.{
  World, M, discard, pure, fail, lift, attempt, ignore, when, refuse_if, command, save, publish,
  read_shared, stored_owner, poisoned, fresh_nonce, fresh_epoch, health_rounds, controller_health,
  ◌>>=◌, ◌>>◌,
}
use strix_halo_cluster_glm.Cluster.Units.{field, unit, unit_active, verify_unit, inspect_all}
use strix_halo_cluster_glm.Cluster.Stop.{is_shared, stop_units}
use strix_halo_cluster_glm.Cluster.Verify.{verify, preflight, rank_url, url_port}

unfoldable pub launch_args : OwnedUnit → List String → String → String → List String
launch_args u args log memory =
    ("systemd-run"
      ∷ "--user"
      ∷ sprint ("--unit=" ∷ u.name ∷ [])
      ∷ sprint ("--setenv=CIRU_OWNER_NONCE=" ∷ u.nonce ∷ [])
      ∷ "--property=RuntimeMaxSec=infinity"
      ∷ "--property=KillMode=control-group"
      ∷ "--property=TimeoutStopSec=20"
      ∷ "--property=MemorySwapMax=0"
      ∷ sprint ("--property=MemoryMax=" ∷ memory ∷ [])
      ∷ sprint ("--property=StandardOutput=append:" ∷ log ∷ [])
      ∷ "--property=StandardError=inherit"
      ∷ [])
    ++ args

-- (*ClusterController).launch with no extra properties; the unit's InvocationID comes back.
unfoldable pub launch : World → OwnedUnit → List String → String → String → M String
unfolding launch_args
launch w u args log memory = do
  m ← unit w u
  refuse_if (unit_active m) (sprint ("unit already active: " ∷ u.name ∷ []))
  when (field "ActiveState" m == "failed")
      (discard (command w u.rank ("systemctl" ∷ "--user" ∷ "reset-failed" ∷ u.name ∷ [])))
  discard (command w u.rank (launch_args u args log memory))
  m' ← unit w u
  lift (verify_unit u m')
  refuse_if (not (unit_active m')) "launched unit exited"
  pure (field "InvocationID" m')

unfoldable pub all_running : World → List OwnedUnit → M (Unit {0})
all_running w [] = pure tt
all_running w (u ∷ us) = do
  m ← unit w u
  refuse_if (not (unit_active m)) (sprint ("unit exited during load: " ∷ u.name ∷ []))
  all_running w us

abbrev pub is_legacy : List OwnedUnit → Bool
is_legacy [] = false
is_legacy (u ∷ us) = has_prefix u.name "ciru-"

-- One round of the loop of `waitHealth`: whether both ranks answered.
unfoldable pub health_round : World → String → String → List OwnedUnit → M Bool
unfolding all_running
health_round w url_0 url_1 us = do
  inspect_all w us (is_legacy us)
  all_running w us
  a ← controller_health w url_0
  b ← controller_health w url_1
  pure (a && b)

-- The loop runs until both are healthy, or until its context is done: the first round always runs,
-- and the given number of rounds can follow it.
unfoldable pub wait_rounds : World → String → String → List OwnedUnit → ℕ → M (Unit {0})
unfolding health_round
wait_rounds w url_0 url_1 us zero = do
  healthy ← health_round w url_0 url_1 us
  elim healthy [ true ↦ pure tt | false ↦ fail "context deadline exceeded" ]
wait_rounds w url_0 url_1 us (suc n) = do
  healthy ← health_round w url_0 url_1 us
  elim healthy [ true ↦ pure tt | false ↦ wait_rounds w url_0 url_1 us n ]

unfoldable pub wait_health : World → String → String → List OwnedUnit → M (Unit {0})
unfolding wait_rounds
wait_health w url_0 url_1 us = do n ← health_rounds w; wait_rounds w url_0 url_1 us n

-- The owner as it stands when the body of `start` returns, with its error.
abbrev pub Started : Type 0
Started = ClusterOwner × Result (Unit {0})

abbrev pub on_ok : ClusterOwner → M Started → Result (Unit {0}) → M Started
on_ok o k (ok _) = k
on_ok o k (err e) = pure (o, err e)

-- `if e := call(); e != nil { return e }` in the body of `start`
unfoldable pub or_return : M (Unit {0}) → ClusterOwner → M Started → M Started
or_return m o k = do r ← attempt m; on_ok o k r

abbrev pub with_unit : ClusterOwner → OwnedUnit → ClusterOwner
with_unit o u = record o { units = o.units ++ u ∷ [] }

abbrev pub reserved : ℤ → String → OwnedUnit
reserved rank nonce = record {
  rank = rank;
  name = sprint ("strixglm-rank" ∷ sprintf_d rank ∷ []);
  nonce = nonce;
  invocation_id = "";
}

unfoldable pub rank_args : ClusterConfig → ClusterOwner → ℤ → List String
rank_args cfg o rank =
    "bash"
    ∷ cfg.launcher
    ∷ cfg.engine_root
    ∷ sprintf_d rank
    ∷ o.epoch
    ∷ url_port (rank_url cfg rank)
    ∷ sprintf_d cfg.master_port
    ∷ join_path cfg.state_dir "settings"
    ∷ []

abbrev pub rank_log : ClusterConfig → ClusterOwner → ℤ → String
rank_log cfg o rank =
    join_path (join_path cfg.state_dir "logs")
      (sprint (o.epoch ∷ "-rank" ∷ sprintf_d rank ∷ ".log" ∷ []))

abbrev pub launched :
    World
    → ClusterConfig
    → ClusterOwner
    → OwnedUnit
    → (ClusterOwner → M Started)
    → Result String
    → M Started
launched w cfg o u next (err e) = pure (with_unit o u, err e)
launched w cfg o u next (ok invocation) =
    let o' = with_unit o (record u { invocation_id = invocation }) in
    or_return (save w o') o' (
      or_return
        (when (is_shared cfg) (
          publish w cfg (
            shared_from_glm "STARTING" o'
              (sprint ("GLM rank" ∷ sprintf_d u.rank ∷ " identity confirmed" ∷ [])))))
        o' (next o'))

-- One round of the launching loop; `next` is what follows it.
unfoldable pub start_rank :
    World → ClusterConfig → ℤ → ClusterOwner → (ClusterOwner → M Started) → M Started
unfolding launch or_return rank_args
start_rank w cfg rank o next = do
  nonce ← fresh_nonce w
  let u = reserved rank nonce
  or_return (save w (with_unit o u)) (with_unit o u) (do
    r ← attempt (launch w u (rank_args cfg o rank) (rank_log cfg o rank) "124554051584")
    launched w cfg o u next r)

unfoldable pub start_ready : World → ClusterConfig → ClusterOwner → M Started
unfolding wait_health or_return
start_ready w cfg o = or_return (wait_health w cfg.rank_url_0 cfg.rank_url_1 o.units) o (
    let o' = record o { state = "ready" } in
    or_return (save w o') o' (
      or_return
        (when (is_shared cfg) (
          publish w cfg (
            shared_from_glm "RUNNING" o'
              "both GLM ranks healthy and identity-confirmed; coordinator/readiness pending")))
        o' (pure (o', ok tt))))

-- What `start` does behind its reservation.
unfoldable pub start_body : World → ClusterConfig → ClusterOwner → M Started
unfolding start_rank start_ready
start_body w cfg o =
    start_rank w cfg (pos 0) o (λ o'. start_rank w cfg (pos 1) o' (start_ready w cfg))

abbrev pub stopped_or : Result (Unit {0}) → String
stopped_or (ok _) = "stopped"
stopped_or (err e) = "cleanup_uncertain"

abbrev pub cleaned : String → Result (Unit {0}) → String
cleaned e (ok _) = e
cleaned e (err e') = join "\n" (e ∷ e' ∷ [])

unfoldable pub publish_cleanup :
    World → ClusterConfig → ClusterOwner → Result (Unit {0}) → M (Unit {0})
publish_cleanup w cfg o (ok _) =
    publish w cfg (shared_off "GLM start failed; all launched GLM ranks verified stopped")
publish_cleanup w cfg o (err e) = publish w cfg (
    shared_from_glm "UNRECONCILED" o
      (sprint ("GLM start failed and cleanup could not be fully verified: " ∷ e ∷ [])))

-- The deferred function of `start`.
unfoldable pub start_cleanup : World → ClusterConfig → Started → M (Unit {0})
unfolding publish_cleanup
start_cleanup w cfg (o, ok _) = pure tt
start_cleanup w cfg (o, err e) = do
  r ← attempt (stop_units w o.units false)
  let o' = record o { state = stopped_or r }
  when (is_shared cfg) (ignore (publish_cleanup w cfg o' r))
  ignore (save w (record o' { error = cleaned e r }))
  fail (cleaned e r)

abbrev pub gate_owner : Stored ClusterOwner → Result (Unit {0})
gate_owner missing = ok tt
gate_owner (unreadable e) = err e
gate_owner (holding o) =
    if o.state == "stopped" then ok tt else err "previous owned pair must be explicitly stopped"

abbrev pub gate_receipt : Result SharedComputeReceipt → M (Unit {0})
gate_receipt (err e) =
    fail
      (sprint ("shared cluster receipt unavailable; explicit reconciliation required: " ∷ e ∷ []))
gate_receipt (ok receipt) = lift (shared_start_allowed receipt)

unfoldable pub gate_shared : World → ClusterConfig → M (Unit {0})
gate_shared w cfg = do r ← attempt (read_shared w cfg); gate_receipt r

abbrev bare : ℤ → String → OwnedUnit
bare rank name = record { rank = rank; name = name; nonce = ""; invocation_id = "" }

abbrev pub exclusive_units : List OwnedUnit
exclusive_units =
    bare (pos 0) "ciru-model-rank0-001"
    ∷ bare (pos 1) "ciru-model-rank1-001"
    ∷ bare (pos 0) "ciru-frontend-001"
    ∷ bare (pos 0) "strixglm-rank0"
    ∷ bare (pos 1) "strixglm-rank1"
    ∷ []

unfoldable pub none_active : World → List OwnedUnit → M (Unit {0})
none_active w [] = pure tt
none_active w (u ∷ us) = do
  m ← unit w u
  refuse_if (unit_active m)
      (sprint ("existing service active; no automatic takeover: " ∷ u.name ∷ []))
  none_active w us

-- What `start` checks before it reserves the pair.
unfoldable pub start_checks : World → ClusterConfig → M (Unit {0})
unfolding gate_shared none_active
start_checks w cfg = do
  when (is_shared cfg) (gate_shared w cfg)
  file ← stored_owner w
  lift (gate_owner file)
  marker ← poisoned w
  refuse_if marker "poison marker requires whole-pair stop before start"
  none_active w exclusive_units
  verify w cfg
  preflight w cfg

abbrev pub starting_owner : String → ClusterOwner
starting_owner epoch = record {
  schema = "strixglm-pair-v1";
  state = "starting";
  epoch = epoch;
  units = [];
  error = "";
  updated = "";
}

-- (*ClusterController).start
unfoldable pub start : World → ClusterConfig → M (Unit {0})
unfolding start_checks start_body start_cleanup
start w cfg = do
  start_checks w cfg
  epoch ← fresh_epoch w
  let o = starting_owner epoch
  save w o
  when (is_shared cfg) (
      publish w cfg (
        shared_from_glm "STARTING" o
          "GLM whole-pair start reserved; no rank identity confirmed yet"))
  done ← start_body w cfg o
  start_cleanup w cfg done
