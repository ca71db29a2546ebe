-- ===== src/Cluster/Samples.antt =====
-- A small pair of hosts for tests: what their commands answer, a configuration, and the controller's
-- files before a start, with the pair up, and with the receipt of another service.
use strix_halo_cluster_glm.Base.{
  String, List, [], ◌∷◌, ℕ, zero, suc, Bool, true, false, ◌&&◌, Result, ok, ◌==◌, if◌then◌else◌,
  sprint, join, map,
}
use strix_halo_cluster_glm.Base.Integer.{ℤ, pos, int_eq}
use strix_halo_cluster_glm.Cluster.Owner.{OwnedUnit, ClusterOwner, ClusterConfig}
use strix_halo_cluster_glm.Cluster.Lease.{
  SharedComputeReceipt, missing, holding, shared_from_glm, shared_off,
}
use strix_halo_cluster_glm.Cluster.Host.{
  Action, ran, committed, Weight, Manifest, World, Host, shared, other,
}

abbrev pub key : String
key = "0123456789abcdef0123456789abcdef"

abbrev pub third : List String → String
third (a ∷ b ∷ c ∷ cs) = c
third _ = ""

-- Whether the latest launch or stop on the rank is a launch.
abbrev pub is_up : ℤ → List Action → Bool
is_up rank [] = false
is_up rank (ran r (c ∷ cs) ∷ acts) =
    let before = is_up rank acts in
    if c == "systemd-run" && int_eq r rank
    then true
    else if third (c ∷ cs) == "stop" && int_eq r rank
    then false
    else before
is_up rank (_ ∷ acts) = is_up rank acts

abbrev shown : Bool → String
shown false = "ActiveState=inactive\nMainPID=0\n"
shown true = sprint (
    "ActiveState=active\nMainPID=42\nInvocationID=" ∷ key ∷ "\nEnvironment=CIRU_OWNER_NONCE=" ∷ key
    ∷ "\n" ∷ [])

abbrev after_dashes : List String → List String
after_dashes [] = []
after_dashes (d ∷ ps) = ps

abbrev pub answer : List Action → ℤ → List String → Result String
answer acts rank [] = ok ""
answer acts rank (c ∷ args) =
    if third (c ∷ args) == "show"
    then ok (shown (is_up rank acts))
    else if c == "sha256sum"
    then ok (join "\n" (map (λ p. sprint ("abc  " ∷ p ∷ [])) (after_dashes args)))
    else if c == "stat"
    then ok "7"
    else if c == "cat"
    then ok "MemTotal: 131000000 kB\nMemAvailable: 120000000 kB\n"
    else ok ""

abbrev paths : List String
paths = "a" ∷ "b" ∷ "c" ∷ "d" ∷ "e" ∷ "f" ∷ "g" ∷ "h" ∷ "i" ∷ "j" ∷ []

abbrev repeated : ℕ → Weight → List Weight
repeated zero x = []
repeated (suc n) x = x ∷ repeated n x

abbrev runtime : Manifest
runtime = record {
  identity = ("rank0", map (λ p. (p, "abc")) paths) ∷ ("rank1", map (λ p. (p, "abc")) paths) ∷ [];
  weights =
      record { rank = shared; path = "model/x"; size = pos 7 }
      ∷ repeated 22 (record { rank = other; path = "model/y"; size = pos 8 });
}

abbrev pub hosts : World
hosts = record {
  run = answer;
  write = λ _ _. committed;
  try_lock = λ _ _. ok tt;
  healthy = λ _ _. true;
  now = λ _. "2026-01-02T03:04:05Z";
  epoch = λ _. "epoch-1";
  nonce = λ _. key;
  manifest = λ _. ok runtime;
  rounds = λ _. 3;
  schedule = λ _. 0 ∷ 1 ∷ 1 ∷ [];
}

abbrev pub config : ClusterConfig
config = record {
  state_dir = "/srv/glm";
  engine_root = "/opt/engine";
  launcher = "/opt/launch.sh";
  manifest = "/opt/manifest.json";
  remote_ssh = "peer";
  rank_url_0 = "http://10.55.0.1:18200";
  rank_url_1 = "http://10.55.0.2:18200";
  master_port = pos 29500;
  frontend_listen = "";
  legacy_owner = "/srv/legacy/owner.json";
  load_timeout_seconds = pos 600;
  shared_state_dir = "/srv/shared";
}

abbrev pub rank_unit : ℤ → String → OwnedUnit
rank_unit rank name = record { rank = rank; name = name; nonce = key; invocation_id = key }

abbrev pub units : List OwnedUnit
units = rank_unit (pos 0) "strixglm-rank0" ∷ rank_unit (pos 1) "strixglm-rank1" ∷ []

abbrev pub ready_owner : ClusterOwner
ready_owner = record {
  schema = "strixglm-pair-v1";
  state = "ready";
  epoch = "epoch-0";
  units = units;
  error = "";
  updated = "";
}

abbrev pub pair_receipt : SharedComputeReceipt
pair_receipt = shared_from_glm "RUNNING" ready_owner "up"

-- Nothing runs, and the receipt is OFF.
abbrev pub cold : Host
cold = record { history = []; owner = missing; shared = holding (shared_off "off"); poison = false }

-- The pair is up, under a receipt that matches it.
abbrev pub warm : Host
warm = record {
  history = ran (pos 1) ("systemd-run" ∷ []) ∷ ran (pos 0) ("systemd-run" ∷ []) ∷ [];
  owner = holding ready_owner;
  shared = holding pair_receipt;
  poison = true;
}

-- The pair is recorded, and one of its units is not bound to a rank's service name.
abbrev pub foreign : List OwnedUnit
foreign = rank_unit (pos 0) "nginx" ∷ []
