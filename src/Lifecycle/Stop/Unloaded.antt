-- ===== src/Lifecycle/Stop/Unloaded.antt =====
-- The files behind a stop that went through.
use strix_halo_cluster_glm.Base.{
  String, [], ◌∷◌, ◌≡◌, ◌≢◌, refl, sym, ap, ◌∙◌, subst, Bool, true, false, ◌&&◌, Result, ok, err,
  ◌==◌, ne_of_test, ok-injective,
}
use strix_halo_cluster_glm.Base.Integer.{ℤ, pos}
use strix_halo_cluster_glm.Cluster.Owner.{ClusterOwner, ClusterConfig}
use strix_halo_cluster_glm.Cluster.Lease.{SharedComputeReceipt, holding, read_shared_compute}
use strix_halo_cluster_glm.Cluster.Host.{World, Host, ran, attempt}
use strix_halo_cluster_glm.Cluster.Trace.{Only, bind-Yields, pure-Yields, bind-eq-ok}
use strix_halo_cluster_glm.Cluster.Stop
use strix_halo_cluster_glm.Cluster.Stop.{is_shared}
use strix_halo_cluster_glm.Cluster.Stop.Release.{Admits}
use strix_halo_cluster_glm.Cluster.Stop.Success.{stop-recorded, stop-Admits}
use strix_halo_cluster_glm.Cluster.Control
use strix_halo_cluster_glm.Cluster.Control.Locks.{under_locks-Inside}
use strix_halo_cluster_glm.Lifecycle.Services.{Services, run_local}
use strix_halo_cluster_glm.Lifecycle.Presence.{pair_state}
use strix_halo_cluster_glm.Lifecycle.Snapshot.{Lifecycle, running_pair, snapshot}
use strix_halo_cluster_glm.Lifecycle.Snapshot.Looks.{snapshot-Looks, pair_state-Looks}
use strix_halo_cluster_glm.Lifecycle.Operation.{set_detail, finish_operation}
use strix_halo_cluster_glm.Lifecycle.Start.{finishing, stop_pair, pair_stop_args}
use strix_halo_cluster_glm.Lifecycle.Start.Receipt.{or_finish-Done}
use strix_halo_cluster_glm.Lifecycle.Stop.{
  stop_answer, stop_coordinator, stop_ranks, stop_loaded, unless_off, stop,
}

-- The detail that only a stop which went through leaves.
abbrev off : String
off = "GLM OFF; coordinator and both ranks verified stopped"

abbrev IsUnloaded : Lifecycle → Type 0
IsUnloaded m = m.detail ≡ off

-- A start may follow: the owner file says stopped with no error, no poison marker is left, and the
-- receipt, if it was the pair's own, admits a start.
pub record Cleared (cfg : ClusterConfig) (h final : Host) : Type 0 where
  pub owner : ClusterOwner
  pub time : String
  pub known : h.owner ≡ holding owner
  pub held : final.owner ≡ holding (record owner { state = "stopped"; error = ""; updated = time })
  pub poison : final.poison ≡ false
  pub admits :
      (r : SharedComputeReceipt)
      → is_shared cfg ≡ true
      → read_shared_compute cfg.shared_state_dir h.shared ≡ ok r
      → r.owner ≡ "GLM"
      → Admits final.shared

other-Unloaded :
    (detail e : String) (m l : Lifecycle) (h : Host)
    → (detail == off) ≡ false
    → IsUnloaded l
    → (finishing detail e m h).0 ≢ ok l
unfolding finish_operation
other-Unloaded detail e m l h other ends same =
    ne_of_test detail off other (ap (λ z. z.detail) (ok-injective same) ∙ ends)

module _ (w : World) (s : Services) (cfg : ClusterConfig) where
  Cleared-to :
      (h mid final : Host)
      → final.owner ≡ mid.owner
      → final.shared ≡ mid.shared
      → final.poison ≡ mid.poison
      → Cleared cfg h mid
      → Cleared cfg h final
  Cleared-to h mid final owner shared poison c = record {
    owner = c.owner;
    time = c.time;
    known = c.known;
    held = owner ∙ c.held;
    poison = poison ∙ c.poison;
    admits = λ r use_shared found glm. subst Admits (sym shared) (c.admits r use_shared found glm);
  }

  Cleared-from :
      (h mid final : Host)
      → mid.owner ≡ h.owner
      → mid.shared ≡ h.shared
      → Cleared cfg mid final
      → Cleared cfg h final
  Cleared-from h mid final owner shared c = record {
    owner = c.owner;
    time = c.time;
    known = sym owner ∙ c.known;
    held = c.held;
    poison = c.poison;
    admits = λ r use_shared found glm.
        c.admits r use_shared (ap (read_shared_compute cfg.shared_state_dir) shared ∙ found) glm;
  }

  stop-Cleared :
      (h : Host) → (Control.stop w cfg h).0 ≡ ok tt → Cleared cfg h (Control.stop w cfg h).1
  unfolding Control.stop
  stop-Cleared h e =
      let x = under_locks-Inside w cfg (Stop.stop w cfg) h e in
      let (o, time, known, held, poison) = stop-recorded w cfg x.begin x.result in
      Cleared-from h x.begin _ x.owner x.shared (
        Cleared-to x.begin (Stop.stop w cfg x.begin).1 _ x.owner' x.shared' x.poison' (record {
          owner = o;
          time = time;
          known = known;
          held = held;
          poison = poison;
          admits =
              λ r use_shared found glm. stop-Admits w cfg x.begin r x.result use_shared found glm;
        }))

  stop_ranks-Cleared :
      (pair : Result (Unit {0})) (m l : Lifecycle) (h : Host)
      → IsUnloaded l
      → (stop_ranks w s cfg pair m h).0 ≡ ok l
      → Cleared cfg h (stop_ranks w s cfg pair m h).1 × (pair ≡ ok tt)
  unfolding stop_ranks stop_coordinator
  stop_ranks-Cleared pair m l h ends e =
      let (_, stopped, same) =
        or_finish-Done (Control.stop w cfg) _ (λ _. stop_coordinator s pair m) h l
          (λ x h'. other-Unloaded _ x m l h' refl ends) e in
      let h₁ = (Control.stop w cfg h).1 in
      let e₁ = ap (λ z. z.0) (sym same) ∙ e in
      let (p, _, s₁) = bind-eq-ok (attempt (pair_state s)) _ h₁ e₁ in
      let x = (pair_state-Looks s).run h₁ in
      (
        subst (Cleared cfg h) (ap (λ z. z.1) (sym (same ∙ s₁)))
            (Cleared-to h h₁ _ x.owner x.shared x.poison (stop-Cleared h stopped)),
        answered pair (running_pair p) (ok-injective (ap (λ z. z.0) (sym s₁) ∙ e₁)),
      )
    where
      answered : (pair : Result (Unit {0})) (b : Bool) → stop_answer pair b m ≡ l → pair ≡ ok tt
      answered (ok _) b same = refl
      answered (err x) true same = absurd (other-Unloaded _ _ m l h refl ends (ap Result.ok same))
      answered (err x) false same = absurd (other-Unloaded _ _ m l h refl ends (ap Result.ok same))

  stop_pair-Keeps : Only (λ _. Unit {0}) (stop_pair s)
  unfolding stop_pair run_local
  stop_pair-Keeps =
      bind-Yields (run_local s pair_stop_args) _
        (record {
          run = λ h. record {
            added = ran (pos 0) pair_stop_args ∷ [];
            history = refl;
            each = (tt, tt);
            owner = refl;
            shared = refl;
            poison = refl;
          };
          result = λ h a e. tt;
        })
        (λ _ _. pure-Yields tt tt)

  stop_loaded-Cleared :
      (m l : Lifecycle) (h : Host)
      → IsUnloaded l
      → (stop_loaded w s cfg m h).0 ≡ ok l
      → Cleared cfg h (stop_loaded w s cfg m h).1
  unfolding stop_loaded
  stop_loaded-Cleared m l h ends e =
      let stopping = set_detail "stopping and verifying both owned GLM ranks" m in
      let (pair, _, same) =
        bind-eq-ok (attempt (stop_pair s)) (λ pair. stop_ranks w s cfg pair stopping) h e in
      let h₁ = (stop_pair s h).1 in
      let x = stop_pair-Keeps.run h in
      let (cleared, _) =
        stop_ranks-Cleared pair stopping l h₁ ends (ap (λ z. z.0) (sym same) ∙ e) in
      subst (Cleared cfg h) (ap (λ z. z.1) (sym same))
        (Cleared-from h h₁ _ x.owner x.shared cleared)

  -- A stop whose last word is that the coordinator and both ranks are stopped clears the way for a
  -- start: the owner file, which named a pair before, says stopped with no error, no poison marker is
  -- left, and a receipt that was readable and the pair's own admits a start.
  pub stop-Clears :
      (drain : ℤ) (m l : Lifecycle) (h : Host)
      → (stop w s cfg drain m h).0 ≡ ok l
      → l.detail ≡ "GLM OFF; coordinator and both ranks verified stopped"
      → Cleared cfg h (stop w s cfg drain m h).1
  unfolding stop
  stop-Clears drain m l h e ends =
      let (x, _, same) = bind-eq-ok (snapshot w s cfg drain m) _ h e in
      let h₁ = (snapshot w s cfg drain m h).1 in
      let seen = snapshot-Looks w s cfg drain m h in
      subst (Cleared cfg h) (ap (λ z. z.1) (sym same)) (
        Cleared-from h h₁ _ seen.owner seen.shared
          (go (x.state == "OFF" && x.coordinator == "OFF") h₁ (ap (λ z. z.0) (sym same) ∙ e)))
    where
      go :
          (b : Bool) (h : Host)
          → (unless_off w s cfg m b h).0 ≡ ok l
          → Cleared cfg h (unless_off w s cfg m b h).1
      go true h e = absurd (other-Unloaded _ _ m l h refl ends e)
      go false h e = stop_loaded-Cleared m l h ends e
