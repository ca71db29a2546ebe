-- ===== src/Lifecycle/Snapshot/Off.antt =====
-- When the gateway reports that the pair is off and may be started.
use strix_halo_cluster_glm.Base.{
  ◌≢◌, ◌⊎◌, [], ◌∷◌, ◌≡◌, refl, sym, ap, ◌∙◌, arith, Bool, true, false, not, Result, ok, err, ◌==◌,
  eq_iff, if_cases, ok-injective, ne_of_test,
}
use strix_halo_cluster_glm.Base.Integer.{ℤ, pos}
use strix_halo_cluster_glm.Cluster.Owner.{ClusterConfig}
use strix_halo_cluster_glm.Cluster.Lease.{SharedComputeReceipt, read_shared_compute}
use strix_halo_cluster_glm.Cluster.Host.{World, Host, M, pure, ◌>>=◌}
use strix_halo_cluster_glm.Cluster.Trace.{bind-eq-ok}
use strix_halo_cluster_glm.Lifecycle.Services.{Services}
use strix_halo_cluster_glm.Lifecycle.Snapshot.{
  Lifecycle, LifecycleSnapshot, Facts, occupied, backend_ready, clock, any_unknown, foreign_active,
  settled, running_pair, with_receipt, decide, begun, facts, gathered, snapshot,
}
use strix_halo_cluster_glm.Lifecycle.Survey.{LifecycleNode}
use strix_halo_cluster_glm.Lifecycle.Snapshot.Nodes.{
  IsOff, SeenDown, SeenDown-since, facts-Gathered,
}
use strix_halo_cluster_glm.Lifecycle.Snapshot.Looks.{pair_state-Looks}
use strix_halo_cluster_glm.Lifecycle.Presence.{pair_state, lifecycle_unit_running}
use strix_halo_cluster_glm.Lifecycle.Presence.Known.{IsClear}
use strix_halo_cluster_glm.Cluster.Units.{Fields, field}

-- What the decision to allow a start rests on.
record IsFree (f : Facts) (x : LifecycleSnapshot) : Type 0 where
  pub state : x.state ≡ "OFF"
  pub known : any_unknown f ≡ false
  pub alone : foreign_active f ≡ false
  pub quiet : f.transient ≡ ""
  pub unloaded : f.survey.all_off ≡ true
  pub uncoordinated : f.pair_running ≡ false
  pub receipt : SharedComputeReceipt
  pub shared : f.shared ≡ ok receipt
  pub owner : receipt.owner ≡ "NONE"
  pub lease : receipt.state ≡ "OFF"

settled-allowed :
    (f : Facts) (r : SharedComputeReceipt) (ready : Bool) (b : LifecycleSnapshot)
    → b.start_allowed ≡ false
    → (settled f r ready b).start_allowed ≡ true
    → (f.survey.all_off ≡ true)
      × (f.pair_running ≡ false)
      × (r.owner ≡ "NONE")
      × (r.state ≡ "OFF")
      × ((settled f r ready b).state ≡ "OFF")
unfolding settled
settled-allowed f r ready b start allowed = ground (
  arith,
  eq_iff r.owner "NONE",
  eq_iff r.state "OFF",
  eq_iff r.owner "GLM",
  ne_of_test "NONE" "GLM" refl,
)

occupied-start_allowed :
    (f : Facts) (r : SharedComputeReceipt) (b : LifecycleSnapshot)
    → (occupied f r b).start_allowed ≡ b.start_allowed
occupied-start_allowed f r b = ground arith

-- A snapshot that allows no start is not the one that does.
refuted :
    (f : Facts) (x y : LifecycleSnapshot)
    → y.start_allowed ≡ false
    → x.start_allowed ≡ true
    → ok y ≡ ok x
    → IsFree f x
refuted f x y shut allowed same =
    absurd (ground (arith, shut, allowed, ap (λ z. z.start_allowed) (ok-injective same)))

with_receipt-IsFree :
    (s : Services) (f : Facts) (b x : LifecycleSnapshot) (h : Host)
    (shared : Result SharedComputeReceipt)
    → f.shared ≡ shared
    → any_unknown f ≡ false
    → b.start_allowed ≡ false
    → x.start_allowed ≡ true
    → (with_receipt s f b shared h).0 ≡ ok x
    → IsFree f x
unfolding with_receipt
with_receipt-IsFree s f b x h (err e) sh known start allowed = refuted f x b start allowed
with_receipt-IsFree s f b x h (ok r) sh known start allowed =
    if_cases P (not (f.transient == "")) _ _ (λ _. refuted f x b start allowed)
      (λ quiet.
        if_cases P (foreign_active f) _ _
          (λ _. refuted f x (occupied f r b) (occupied-start_allowed f r b ∙ start) allowed)
          (λ alone.
            if_cases P (r.state == "UNRECONCILED") _ _ (λ _. refuted f x _ start allowed)
              (λ _. on_settled (ground (arith, quiet)) alone)))
  where
    P : M LifecycleSnapshot → Type 0
    P m = (m h).0 ≡ ok x → IsFree f x

    on_settled :
        (f.transient == "") ≡ true
        → foreign_active f ≡ false
        → P (backend_ready s f.pair_running >>= λ ready. pure (settled f r ready b))
    on_settled quiet alone done =
        let (ready, _, same) = bind-eq-ok (backend_ready s f.pair_running) _ h done in
        let settles = ok-injective (ap (λ z. z.0) (sym same) ∙ done) in
        let (off, down, owner, lease, state) =
          settled-allowed f r ready b start (ap (λ z. z.start_allowed) settles ∙ allowed) in
        record {
          state = ap (λ z. z.state) (sym settles) ∙ state;
          known = known;
          alone = alone;
          quiet = (eq_iff _ _).0 quiet;
          unloaded = off;
          uncoordinated = down;
          receipt = r;
          shared = sh;
          owner = owner;
          lease = lease;
        }

decide-IsFree :
    (s : Services) (f : Facts) (b x : LifecycleSnapshot) (h : Host)
    → b.start_allowed ≡ false
    → x.start_allowed ≡ true
    → (decide s f b h).0 ≡ ok x
    → IsFree f x
unfolding decide
decide-IsFree s f b x h start allowed =
    if_cases (λ (m : M LifecycleSnapshot). (m h).0 ≡ ok x → IsFree f x) (any_unknown f) _ _
      (λ _. refuted f x _ start allowed)
      (λ known. with_receipt-IsFree s f b x h f.shared refl known start allowed)

settled-nodes :
    (f : Facts) (r : SharedComputeReceipt) (ready : Bool) (b : LifecycleSnapshot)
    → (settled f r ready b).nodes ≡ b.nodes
unfolding settled
settled-nodes f r ready b = ground arith

with_receipt-nodes :
    (s : Services) (f : Facts) (b x : LifecycleSnapshot) (h : Host)
    (shared : Result SharedComputeReceipt)
    → (with_receipt s f b shared h).0 ≡ ok x
    → x.nodes ≡ b.nodes
unfolding with_receipt
with_receipt-nodes s f b x h (err e) = λ done. ap (λ z. z.nodes) (sym (ok-injective done))
with_receipt-nodes s f b x h (ok r) =
    if_cases P (not (f.transient == "")) _ _ (λ _. kept)
      (λ _.
        if_cases P (foreign_active f) _ _ (λ _ done. kept done ∙ ground arith)
          (λ _.
            if_cases P (r.state == "UNRECONCILED") _ _ (λ _. kept)
              (λ _ done.
                let (ready, _, same) = bind-eq-ok (backend_ready s f.pair_running) _ h done in
                kept (ap (λ z. z.0) (sym same) ∙ done) ∙ settled-nodes f r ready b)))
  where
    P : M LifecycleSnapshot → Type 0
    P m = (m h).0 ≡ ok x → x.nodes ≡ b.nodes

    kept : {y : LifecycleSnapshot} → Result.ok y ≡ ok x → x.nodes ≡ y.nodes
    kept done = ap (λ z. z.nodes) (sym (ok-injective done))

decide-nodes :
    (s : Services) (f : Facts) (b x : LifecycleSnapshot) (h : Host)
    → (decide s f b h).0 ≡ ok x
    → x.nodes ≡ b.nodes
unfolding decide
decide-nodes s f b x h =
    if_cases (λ (m : M LifecycleSnapshot). (m h).0 ≡ ok x → x.nodes ≡ b.nodes) (any_unknown f) _ _
      (λ _ done. ap (λ z. z.nodes) (sym (ok-injective done)))
      (λ _ done. with_receipt-nodes s f b x h f.shared done)

-- The coordinator's unit is not running: systemctl failed, or does not know the unit, or shows no main
-- process or no active state.
abbrev pub IsIdle : Result Fields → Type 0
IsIdle (err e) = Unit
IsIdle (ok v) =
    (field "LoadState" v ≡ "not-found")
    ⊎ (field "MainPID" v ≡ "0")
    ⊎ (field "MainPID" v ≡ "")
    ⊎ (field "ActiveState" v ≢ "active")

running_pair-IsIdle : (r : Result Fields) → running_pair r ≡ false → IsIdle r
unfolding lifecycle_unit_running
running_pair-IsIdle (err e) h = tt
running_pair-IsIdle (ok v) h = ground (
  arith,
  h,
  eq_iff (field "LoadState" v) "not-found",
  eq_iff (field "MainPID" v) "0",
  eq_iff (field "MainPID" v) "",
  eq_iff (field "ActiveState" v) "active",
)

free-IsClear :
    (f : Facts) (x : LifecycleSnapshot)
    → IsFree f x
    → IsClear f.local_foreign × IsClear f.peer_foreign
unfolding any_unknown foreign_active
free-IsClear f x free = (
  (ground (arith, free.known), ground (arith, free.alone)),
  (ground (arith, free.known), ground (arith, free.alone)),
)

module _ (w : World) (s : Services) where
  module _ (cfg : ClusterConfig) (m : Lifecycle) where
    -- What the hosts have shown where a snapshot allows a start.
    pub record Allowed (h : Host) (x : LifecycleSnapshot) : Type 0 where
      pub quiet : m.transient ≡ ""
      pub state : x.state ≡ "OFF"
      pub receipt : SharedComputeReceipt
      pub read : read_shared_compute cfg.shared_state_dir h.shared ≡ ok receipt
      pub owner : receipt.owner ≡ "NONE"
      pub lease : receipt.state ≡ "OFF"
      pub coordinator : IsIdle (pair_state s h).0
      pub first : LifecycleNode
      pub second : LifecycleNode
      pub nodes : x.nodes ≡ first ∷ second ∷ []
      pub rank_0 : first.rank ≡ pos 0
      pub rank_1 : second.rank ≡ pos 1
      pub off_0 : IsOff first
      pub off_1 : IsOff second
      pub engine_0 : SeenDown w (pos 0) "strixglm-rank0.service" h
      pub engine_1 : SeenDown w (pos 1) "strixglm-rank1.service" h
      pub foreign_0 : SeenDown w (pos 0) "ds41-rank0.service" h
      pub foreign_1 : SeenDown w (pos 1) "ds41-rank1.service" h

    -- A snapshot allows a start only with no operation in progress and with the receipt readable and
    -- OFF with no owner, where the coordinator's unit was not shown running and where each of the four
    -- engine units, this model's and the other's on either rank, was shown to be off: systemctl
    -- answered on that rank, in the course of this snapshot, and by its answer the unit has no main
    -- process, is inactive or failed, and has no process in its cgroup. The snapshot then says OFF and
    -- lists both ranks as proven off.
    pub snapshot-Allowed :
        (drain : ℤ) (h : Host) (x : LifecycleSnapshot)
        → (snapshot w s cfg drain m h).0 ≡ ok x
        → x.start_allowed ≡ true
        → Allowed h x
    unfolding snapshot begun
    snapshot-Allowed drain h x e allowed =
        let (now, _, s₀) = bind-eq-ok (clock w) _ h e in
        let e₀ = ap (λ z. z.0) (sym s₀) ∙ e in
        let (f, gathered, s₁) = bind-eq-ok (facts w s cfg m) _ h e₀ in
        let e₁ = ap (λ z. z.0) (sym s₁) ∙ e₀ in
        let free = decide-IsFree s f (begun m drain now f) x _ refl allowed e₁ in
        let g = facts-Gathered w s cfg m f h gathered in
        let asked = (pair_state-Looks s).run h in
        let (off_0, off_1, engine_0, engine_1) = g.both.off free.unloaded in
        let (clear_0, clear_1) = free-IsClear f x free in
        record {
          quiet = sym g.transient ∙ free.quiet;
          state = free.state;
          receipt = free.receipt;
          read = sym g.read ∙ free.shared;
          owner = free.owner;
          lease = free.lease;
          coordinator =
              running_pair-IsIdle (pair_state s h).0 (sym g.coordinator ∙ free.uncoordinated);
          first = g.both.first;
          second = g.both.second;
          nodes = decide-nodes s f (begun m drain now f) x _ e₁ ∙ g.both.nodes;
          rank_0 = g.both.rank_0;
          rank_1 = g.both.rank_1;
          off_0 = off_0;
          off_1 = off_1;
          engine_0 = SeenDown-since w (pos 0) "strixglm-rank0.service" asked engine_0;
          engine_1 = SeenDown-since w (pos 1) "strixglm-rank1.service" asked engine_1;
          foreign_0 = SeenDown-since w (pos 0) "ds41-rank0.service" asked (g.near clear_0);
          foreign_1 = SeenDown-since w (pos 1) "ds41-rank1.service" asked (g.far clear_1);
        }
