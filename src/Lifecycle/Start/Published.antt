-- ===== src/Lifecycle/Start/Published.antt =====
-- The receipt behind a start that went through.
use strix_halo_cluster_glm.Base.{
  String, [], ◌∷◌, ◌≡◌, refl, sym, ap, ◌∙◌, subst, not, Option, none, some, ok, ◌==◌, if_cases,
}
use strix_halo_cluster_glm.Base.Integer.{ℤ, pos}
use strix_halo_cluster_glm.Cluster.Owner.{OwnedUnit, ClusterOwner, ClusterConfig}
use strix_halo_cluster_glm.Cluster.Lease.{
  SharedComputeReceipt, holding, shared_from_glm, shared_matches_glm, shared_start_allowed,
}
use strix_halo_cluster_glm.Cluster.Host.{World, Host, M, lift, read_shared}
use strix_halo_cluster_glm.Cluster.Trace.{bind-eq-ok}
use strix_halo_cluster_glm.Cluster.Receipts.{matches-shared_from_glm}
use strix_halo_cluster_glm.Cluster.Control
use strix_halo_cluster_glm.Cluster.Start
use strix_halo_cluster_glm.Cluster.Control.Locks.{under_locks-Inside}
use strix_halo_cluster_glm.Cluster.Start.Launched.{IsLaunched}
use strix_halo_cluster_glm.Cluster.Start.Pair.{start-ready}
use strix_halo_cluster_glm.Lifecycle.Services.{Services}
use strix_halo_cluster_glm.Lifecycle.Presence.{Presence, presence_off, ds41_state}
use strix_halo_cluster_glm.Lifecycle.Snapshot.{Lifecycle}
use strix_halo_cluster_glm.Lifecycle.Operation.{set_detail}
use strix_halo_cluster_glm.Lifecycle.Start.{
  check_ds41, if_ds41_off, if_off, refused_start, start_coordinator, start_ranks, start_gate, start,
}
use strix_halo_cluster_glm.Lifecycle.Start.Receipt.{
  IsDone, finishing-Done, or_finish-Done, refused_start-other, start_coordinator-Published,
}

module _ (w : World) (s : Services) (cfg : ClusterConfig) where
  -- What a start that went through leaves behind.
  pub record Served (final : Host) : Type 0 where
    pub owner : ClusterOwner
    pub held : final.owner ≡ holding owner
    pub ready : owner.state ≡ "ready"
    -- the run of the controller's `start` that wrote the owner file
    pub begin : Host
    pub ran : (Start.start w cfg begin).0 ≡ ok tt
    pub written : final.owner ≡ (Start.start w cfg begin).1.owner
    pub units :
        (u v : OwnedUnit) × (owner.units ≡ u ∷ v ∷ [])
        × IsLaunched w cfg owner.epoch (pos 0) u (Start.start w cfg begin).1
        × IsLaunched w cfg owner.epoch (pos 1) v (Start.start w cfg begin).1
    pub receipt : SharedComputeReceipt
    pub shared : final.shared ≡ holding receipt
    pub lease : receipt.state ≡ "READY"
    pub matches : shared_matches_glm receipt owner ≡ ok tt

  start_ranks-Served :
      (m l : Lifecycle) (h : Host)
      → IsDone l
      → (start_ranks w s cfg m h).0 ≡ ok l
      → Served (start_ranks w s cfg m h).1
  unfolding start_ranks Control.start shared_from_glm
  start_ranks-Served m l h ends e =
      let next = start_coordinator w s cfg (set_detail "starting paired coordinator" m) in
      let (_, began, same) =
        or_finish-Done (Control.start w cfg) _ (λ _. next) h l
          (λ x h'. finishing-Done _ x m l h' refl ends) e in
      let x = under_locks-Inside w cfg (Start.start w cfg) h began in
      let (o, held, state, pair, valid) = start-ready w cfg x.begin x.result in
      let h₁ = (Control.start w cfg h).1 in
      let p =
        start_coordinator-Published w s cfg (set_detail "starting paired coordinator" m) l h₁ ends
          (ap (λ z. z.0) (sym same) ∙ e) in
      let at = x.owner' ∙ held in
      let one = holding-injective (sym p.held ∙ at) in
      subst Served (ap (λ z. z.1) (sym same)) (record {
        owner = o;
        held = p.kept ∙ at;
        ready = state;
        begin = x.begin;
        ran = x.result;
        written = p.kept ∙ x.owner';
        units = pair;
        receipt = record (shared_from_glm "READY" o p.detail) { updated = p.now };
        shared =
            p.shared
            ∙ ap (λ o. holding (record (shared_from_glm "READY" o p.detail) { updated = p.now }))
                one;
        lease = refl;
        matches = matches-shared_from_glm o "READY" p.detail p.now valid;
      })
    where
      holding-injective : {a b : ClusterOwner} → holding a ≡ holding b → a ≡ b
      holding-injective e = cc

  check_ds41-Served :
      (rank : ℤ) (m l : Lifecycle) (next : M Lifecycle) (h : Host)
      → IsDone l
      → ((h : Host) → (next h).0 ≡ ok l → Served (next h).1)
      → (check_ds41 w rank m next h).0 ≡ ok l
      → Served (check_ds41 w rank m next h).1
  unfolding check_ds41
  check_ds41-Served rank m l next h ends later e =
      let (p, _, same) = bind-eq-ok (ds41_state w rank) (λ p. if_ds41_off rank p m next) h e in
      subst Served (ap (λ z. z.1) (sym same)) (go p _ (ap (λ z. z.0) (sym same) ∙ e))
    where
      on :
          (p : Presence) (x : Option String) (h : Host)
          → (if_off (refused_start rank p) p.state m next x h).0 ≡ ok l
          → Served (if_off (refused_start rank p) p.state m next x h).1
      on p (some x) h e = absurd (finishing-Done _ x m l h (refused_start-other rank p) ends e)
      on p none h e =
          if_cases (λ (k : M Lifecycle). (k h).0 ≡ ok l → Served (k h).1)
            (not (p.state == presence_off)) _ _
            (λ _ e. absurd (finishing-Done _ _ m l h (refused_start-other rank p) ends e))
            (λ _ e. later h e) e

      go :
          (p : Presence) (h : Host)
          → (if_ds41_off rank p m next h).0 ≡ ok l
          → Served (if_ds41_off rank p m next h).1
      go p h = on p p.error h

  -- A start whose last word is that both ranks and the coordinator are ready leaves a ready pair in
  -- the owner file and in the shared receipt a READY entry that matches this very pair unit by unit,
  -- where nothing but the start itself writes these two files on the way. The pair is a unit of rank 0
  -- and then one of rank 1; for each, the controller's `start` that left
  -- this owner file has executed the systemd-run of that
  -- rank's engine without an error, and the unit then answered that it is active under the nonce and
  -- the invocation that the owner records.
  pub start-Served :
      (m l : Lifecycle) (h : Host)
      → (start w s cfg m h).0 ≡ ok l
      → l.detail ≡ "both ranks and coordinator READY"
      → Served (start w s cfg m h).1
  unfolding start
  start-Served m l h e ends =
      let loading = set_detail "loading both GLM ranks" m in
      let gate = start_gate w cfg m (start_ranks w s cfg loading) in
      check_ds41-Served (pos 0) m l (check_ds41 w (pos 1) m gate) h ends
        (λ h₁. check_ds41-Served (pos 1) m l gate h₁ ends (λ h₂ e₂.
          let (shared, _, s₀) =
            or_finish-Done (read_shared w cfg) _ _ h₂ l
              (λ x h'. finishing-Done _ x m l h' refl ends) e₂ in
          let e₃ = ap (λ z. z.0) (sym s₀) ∙ e₂ in
          let (_, _, s₁) =
            or_finish-Done (lift (shared_start_allowed shared)) _ (λ _. start_ranks w s cfg loading)
              _ l (λ x h'. finishing-Done _ x m l h' refl ends) e₃ in
          subst Served (ap (λ z. z.1) (sym (s₀ ∙ s₁)))
            (start_ranks-Served loading l _ ends (ap (λ z. z.0) (sym s₁) ∙ e₃))))
        e
