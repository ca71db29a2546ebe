-- ===== src/Lifecycle/Presence.antt =====
-- lifecycle_native.go: whether a unit runs, is off, or cannot be known.
pub mod Stopped
pub mod Known
pub mod Active
use strix_halo_cluster_glm.Base.{
  String, List, [], ◌∷◌, ℕ, Bool, true, false, not, ◌&&◌, ◌||◌, Option, none, some, Result, ok, err,
  ◌==◌, if◌then◌else◌, lookup, split, trim_space, join_path, sprint, sprintf_d,
}
use strix_halo_cluster_glm.Base.Integer.{ℤ, pos}
use strix_halo_cluster_glm.Cluster.Host.{World, M, pure, attempt, command, ◌>>=◌}
use strix_halo_cluster_glm.Cluster.Units.{Fields, field, lines_from}
use strix_halo_cluster_glm.Lifecycle.Services.{Services, run_local}

abbrev pub presence_active : String
presence_active = "ACTIVE"

abbrev pub presence_off : String
presence_off = "OFF_VERIFIED"

abbrev pub presence_unknown : String
presence_unknown = "UNKNOWN"

-- parseSystemdShow
unfoldable pub parse_systemd_show : String → Fields
unfolding lines_from
parse_systemd_show raw = lines_from [] (split 10 raw)

-- lifecycleUnitRunning
unfoldable pub lifecycle_unit_running : Fields → Bool
lifecycle_unit_running v =
    not (field "LoadState" v == "not-found")
    && not (field "MainPID" v == "0")
    && not (field "MainPID" v == "")
    && field "ActiveState" v == "active"

pub record Presence : Type 0 where
  pub state : String
  pub fields : Option Fields
  pub error : Option String

abbrev pub presence_args : String → List String
presence_args unit =
    "systemctl" ∷ "--user" ∷ "show" ∷ unit ∷ "-p" ∷ "LoadState" ∷ "-p" ∷ "ActiveState" ∷ "-p"
    ∷ "SubState" ∷ "-p" ∷ "MainPID" ∷ "-p" ∷ "InvocationID" ∷ "-p" ∷ "ControlGroup" ∷ "-p"
    ∷ "Environment" ∷ []

-- The first key that the answer lacks.
unfoldable pub missing_key : List String → Fields → Option String
missing_key [] v = none
missing_key (k ∷ ks) v = elim (lookup k v) [ none ↦ some k | some x ↦ missing_key ks v ]

abbrev unknown : Fields → String → Presence
unknown v e = record { state = presence_unknown; fields = some v; error = some e }

abbrev pub shows_active : Fields → String → Bool
shows_active v pids =
    not (field "MainPID" v == "0")
    || field "ActiveState" v == "active"
    || field "ActiveState" v == "activating"
    || field "ActiveState" v == "deactivating"
    || not (pids == "")

abbrev pub shows_off : Fields → String → Bool
shows_off v pids =
    (field "ActiveState" v == "inactive" || field "ActiveState" v == "failed")
    && field "MainPID" v == "0"
    && pids == ""

-- The three answers of `unitPresence` to a complete state and the processes of its cgroup.
unfoldable pub presence_of : String → Fields → String → Presence
presence_of unit v pids =
    if shows_active v pids
    then record { state = presence_active; fields = some v; error = none }
    else if shows_off v pids
    then record { state = presence_off; fields = some v; error = none }
    else unknown v (sprint ("ambiguous " ∷ unit ∷ " state" ∷ []))

abbrev pub with_cgroup : String → Fields → Result String → M Presence
with_cgroup unit v (err e) =
    pure (unknown v (sprint ("cannot verify " ∷ unit ∷ " cgroup: " ∷ e ∷ [])))
with_cgroup unit v (ok out) = pure (presence_of unit v (trim_space out))

-- The processes are read where the unit has a cgroup.
abbrev pub read_cgroup : World → ℤ → String → Fields → Bool → M Presence
read_cgroup w rank unit v true = pure (presence_of unit v "")
read_cgroup w rank unit v false = do
  r ← attempt (
      command w rank (
        "cat"
        ∷ join_path (join_path "/sys/fs/cgroup" (field "ControlGroup" v)) "cgroup.procs"
        ∷ []))
  with_cgroup unit v r

abbrev pub required_keys : List String
required_keys = "LoadState" ∷ "ActiveState" ∷ "MainPID" ∷ "ControlGroup" ∷ []

abbrev pub if_complete : World → ℤ → String → Fields → Option String → M Presence
if_complete w rank unit v (some key) =
    pure (unknown v (sprint ("incomplete " ∷ unit ∷ " state: missing " ∷ key ∷ [])))
if_complete w rank unit v none = read_cgroup w rank unit v (field "ControlGroup" v == "")

abbrev pub shown_presence : World → ℤ → String → Result String → M Presence
shown_presence w rank unit (err e) =
    pure (record { state = presence_unknown; fields = none; error = some e })
shown_presence w rank unit (ok b) =
    let v = parse_systemd_show b in if_complete w rank unit v (missing_key required_keys v)

-- unitPresence
unfoldable pub unit_presence : World → ℤ → String → M Presence
unfolding parse_systemd_show presence_of missing_key
unit_presence w rank unit = do
  r ← attempt (command w rank (presence_args unit))
  shown_presence w rank unit r

-- ds41State
unfoldable pub ds41_state : World → ℤ → M Presence
unfolding unit_presence
ds41_state w rank = unit_presence w rank (sprint ("ds41-rank" ∷ sprintf_d rank ∷ ".service" ∷ []))

abbrev pub pair_unit : String
pair_unit = "strixglm-pair.service"

abbrev pub pair_args : List String
pair_args =
    "/usr/bin/systemctl" ∷ "--user" ∷ "show" ∷ pair_unit ∷ "-p" ∷ "LoadState" ∷ "-p" ∷ "ActiveState"
    ∷ "-p" ∷ "SubState" ∷ "-p" ∷ "MainPID" ∷ "-p" ∷ "InvocationID" ∷ []

-- pairState
unfoldable pub pair_state : Services → M Fields
unfolding parse_systemd_show
pair_state s = do b ← run_local s pair_args; pure (parse_systemd_show b)
