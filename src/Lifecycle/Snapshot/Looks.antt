-- ===== src/Lifecycle/Snapshot/Looks.antt =====
-- What a snapshot does to the hosts: it asks.
use strix_halo_cluster_glm.Base.{
  String, List, [], ◌∷◌, ◌≡◌, refl, zero, suc, Bool, true, false, ◌&&◌, ◌||◌, not, Option, none,
  some, Result, ok, err, ◌==◌, if◌then◌else◌, if_cases,
}
use strix_halo_cluster_glm.Base.Integer.{ℤ, pos, negsuc}
use strix_halo_cluster_glm.Cluster.Owner.{OwnedUnit, ClusterOwner, ClusterConfig}
use strix_halo_cluster_glm.Cluster.Lease.{SharedComputeReceipt}
use strix_halo_cluster_glm.Cluster.Host.{
  World, Host, M, Action, ran, saved, published, archived, locked, unlocked, probed, pure, attempt,
  command, read_shared, read_owner,
}
use strix_halo_cluster_glm.Cluster.Trace.{
  Extends, Extends-refl, Only, bind-Yields, pure-Yields, lift-Only, attempt-Only, command-Only,
}
use strix_halo_cluster_glm.Cluster.Units.{Fields, field}
use strix_halo_cluster_glm.Lifecycle.Services.{Services, run_local, backend_health, read_meminfo}
use strix_halo_cluster_glm.Lifecycle.Memory.{node_memory, memory_source, parse_meminfo}
use strix_halo_cluster_glm.Lifecycle.Presence.{
  presence_of, presence_args, unit_presence, shown_presence, if_complete, read_cgroup, with_cgroup,
  missing_key, ds41_state, pair_state, pair_args, parse_systemd_show, required_keys,
}
use strix_halo_cluster_glm.Lifecycle.Snapshot.{
  Lifecycle, LifecycleSnapshot, Facts, foreign_peer, backend_ready, clock, any_unknown,
  foreign_active, settled, with_receipt, occupied, decide, begun, facts, gathered, snapshot,
}
use strix_halo_cluster_glm.Lifecycle.Survey.{
  LifecycleNode, Survey, asked, measured_node, with_memory, no_survey, units_of, is_ready,
  survey_rank, surveys,
}

abbrev third : List String → String
third (a ∷ b ∷ c ∷ cs) = c
third _ = ""

abbrev is_question : List String → Bool
is_question [] = false
is_question (c ∷ cs) =
    c == "cat" || (c == "systemctl" || c == "/usr/bin/systemctl") && third (c ∷ cs) == "show"

-- A command that reads, or a request for the coordinator's health.
abbrev is_look : Action → Bool
is_look (ran rank args) = is_question args
is_look (probed url) = true
is_look (saved o) = false
is_look (published r) = false
is_look archived = false
is_look (locked path) = false
is_look (unlocked path) = false

abbrev pub IsLook : Action → Type 0
IsLook a = is_look a ≡ true

abbrev pub Looks : {A : Type 0} → M A → Type 0
Looks m = Only IsLook m

pure-Looks : {A : Type 0} (a : A) → Looks (pure a)
pure-Looks a = pure-Yields a tt

if-Looks : {A : Type 0} (b : Bool) (x y : M A) → Looks x → Looks y → Looks (if b then x else y)
if-Looks b x y p q = if_cases Looks b x y (λ _. p) (λ _. q)

module _ (s : Services) where
  pub pair_state-Looks : Looks (pair_state s)
  unfolding pair_state run_local
  pair_state-Looks =
      bind-Yields (run_local s pair_args) _
        (record {
          run = λ h. record {
            added = ran (pos 0) pair_args ∷ [];
            history = refl;
            each = (refl, tt);
            owner = refl;
            shared = refl;
            poison = refl;
          };
          result = λ h a e. tt;
        })
        (λ b _. pure-Looks (parse_systemd_show b))

  backend_health-Looks : Looks (backend_health s)
  unfolding backend_health
  backend_health-Looks = record {
    run = λ h. record {
      added = probed "backend" ∷ [];
      history = refl;
      each = (refl, tt);
      owner = refl;
      shared = refl;
      poison = refl;
    };
    result = λ h a e. tt;
  }

module _ (w : World) where
  read_cgroup-Looks :
      (rank : ℤ) (unit : String) (v : Fields) (b : Bool) → Looks (read_cgroup w rank unit v b)
  read_cgroup-Looks rank unit v true = pure-Looks (presence_of unit v "")
  read_cgroup-Looks rank unit v false =
      bind-Yields (attempt (command w rank _)) (with_cgroup unit v)
        (attempt-Only (command w rank _) (command-Only w rank _ refl)) (λ r _. on r)
    where
      on : (r : Result String) → Looks (with_cgroup unit v r)
      on (ok out) = pure-Looks _
      on (err e) = pure-Looks _

  if_complete-Looks :
      (rank : ℤ) (unit : String) (v : Fields) (k : Option String)
      → Looks (if_complete w rank unit v k)
  if_complete-Looks rank unit v (some k) = pure-Looks _
  if_complete-Looks rank unit v none = read_cgroup-Looks rank unit v (field "ControlGroup" v == "")

  shown-Looks :
      (rank : ℤ) (unit : String) (r : Result String) → Looks (shown_presence w rank unit r)
  shown-Looks rank unit (err e) = pure-Looks _
  shown-Looks rank unit (ok b) =
      if_complete-Looks rank unit (parse_systemd_show b)
        (missing_key required_keys (parse_systemd_show b))

  unit_presence-Looks : (rank : ℤ) (unit : String) → Looks (unit_presence w rank unit)
  unfolding unit_presence
  unit_presence-Looks rank unit =
      bind-Yields (attempt (command w rank (presence_args unit))) (shown_presence w rank unit)
        (attempt-Only (command w rank (presence_args unit))
          (command-Only w rank (presence_args unit) refl))
        (λ r _. shown-Looks rank unit r)

  pub ds41_state-Looks : (rank : ℤ) → Looks (ds41_state w rank)
  unfolding ds41_state
  ds41_state-Looks rank = unit_presence-Looks rank _

  foreign_peer-Looks : (b : Bool) → Looks (foreign_peer w b)
  foreign_peer-Looks true = pure-Looks _
  foreign_peer-Looks false = ds41_state-Looks (pos 1)

  asked-Looks : (rank : ℤ) (peer b : Bool) → Looks (asked w rank peer b)
  asked-Looks rank peer true = pure-Looks _
  asked-Looks rank peer false =
      bind-Yields (unit_presence w rank _) _ (unit_presence-Looks rank _) (λ p _. pure-Looks _)

  module _ (s : Services) where
    memory_source-Looks : (rank : ℤ) → Looks (memory_source w s rank)
    unfolding read_meminfo
    memory_source-Looks (pos zero) = record { run = Extends-refl; result = λ h a e. tt }
    memory_source-Looks (pos (suc n)) = command-Only w (pos 1) _ refl
    memory_source-Looks (negsuc n) = command-Only w (pos 1) _ refl

    measured-Looks :
        (rank : ℤ) (peer : Bool) (n : LifecycleNode) (b : Bool)
        → Looks (measured_node w s rank peer n b)
    unfolding node_memory
    measured-Looks rank peer n true =
        bind-Yields (attempt (node_memory w s rank)) _
          (attempt-Only (node_memory w s rank) (
            bind-Yields (memory_source w s rank) _ (memory_source-Looks rank)
              (λ b _. lift-Only (parse_meminfo b))))
          (λ r _. pure-Looks (with_memory rank peer n r))
    measured-Looks rank peer n false = pure-Looks (n, peer)

    pub survey_rank-Looks :
        (owned : List OwnedUnit) (rank : ℤ) (sv : Survey) → Looks (survey_rank w s owned rank sv)
    unfolding survey_rank
    survey_rank-Looks owned rank sv =
        bind-Yields (asked w rank sv.peer_unknown _) _ (asked-Looks rank sv.peer_unknown _) (λ x _.
          bind-Yields (measured_node w s rank x.1 _ _) _ (measured-Looks rank x.1 _ _)
            (λ y _. pure-Looks _))

    pub surveys-Looks : (owner : Result ClusterOwner) → Looks (surveys w s owner)
    unfolding surveys
    surveys-Looks owner =
        bind-Yields (survey_rank w s (units_of owner) (pos 0) (no_survey (is_ready owner))) _
          (survey_rank-Looks (units_of owner) (pos 0) (no_survey (is_ready owner)))
          (λ first _. survey_rank-Looks (units_of owner) (pos 1) first)

    gathered-Looks :
        (m : Lifecycle) (shared : Result SharedComputeReceipt) (pair : Result Fields)
        (owner : Result ClusterOwner)
        → Looks (gathered w s m shared pair owner)
    unfolding gathered
    gathered-Looks m shared pair owner =
        bind-Yields (surveys w s owner) _ (surveys-Looks owner) (λ both _.
          bind-Yields (ds41_state w (pos 0)) _ (ds41_state-Looks (pos 0)) (λ near _.
            bind-Yields (foreign_peer w both.peer_unknown) _ (foreign_peer-Looks both.peer_unknown)
              (λ far _. pure-Looks _)))

    facts-Looks : (cfg : ClusterConfig) (m : Lifecycle) → Looks (facts w s cfg m)
    unfolding facts read_shared read_owner
    facts-Looks cfg m =
        bind-Yields (attempt (read_shared w cfg)) _
          (record { run = Extends-refl; result = λ h a e. tt })
          (λ shared _.
            bind-Yields (attempt (pair_state s)) _
              (attempt-Only (pair_state s) (pair_state-Looks s))
              (λ pair _.
                bind-Yields (attempt (read_owner w)) _
                  (record { run = Extends-refl; result = λ h a e. tt })
                  (λ owner _. gathered-Looks m shared pair owner)))

    backend_ready-Looks : (b : Bool) → Looks (backend_ready s b)
    backend_ready-Looks true = backend_health-Looks s
    backend_ready-Looks false = pure-Looks false

    with_receipt-Looks :
        (f : Facts) (b : LifecycleSnapshot) (r : Result SharedComputeReceipt)
        → Looks (with_receipt s f b r)
    unfolding with_receipt
    with_receipt-Looks f b (err e) = pure-Looks b
    with_receipt-Looks f b (ok r) = if-Looks (not (f.transient == "")) _ _ (pure-Looks b) (
        if-Looks (foreign_active f) _ _ (pure-Looks (occupied f r b)) (
          if-Looks (r.state == "UNRECONCILED") _ _ (pure-Looks _) (
            bind-Yields (backend_ready s f.pair_running) _ (backend_ready-Looks f.pair_running)
              (λ ready _. pure-Looks (settled f r ready b)))))

    decide-Looks : (f : Facts) (b : LifecycleSnapshot) → Looks (decide s f b)
    unfolding decide
    decide-Looks f b = if-Looks (any_unknown f) _ _ (pure-Looks _) (with_receipt-Looks f b f.shared)

    snapshot-Only :
        (cfg : ClusterConfig) (drain : ℤ) (m : Lifecycle) → Looks (snapshot w s cfg drain m)
    unfolding snapshot
    snapshot-Only cfg drain m =
        bind-Yields (clock w) _ (record { run = Extends-refl; result = λ h a e. tt })
          (λ now _.
            bind-Yields (facts w s cfg m) _ (facts-Looks cfg m)
              (λ f _. decide-Looks f (begun m drain now f)))

    -- A snapshot touches nothing: every command that it runs reads a file or shows a unit, and the
    -- owner file, the receipt and the poison marker stay as they are.
    pub snapshot-Looks :
        (cfg : ClusterConfig) (drain : ℤ) (m : Lifecycle) (h : Host)
        → Extends IsLook h (snapshot w s cfg drain m h).1
    snapshot-Looks cfg drain m h = (snapshot-Only cfg drain m).run h
