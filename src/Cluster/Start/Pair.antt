-- ===== src/Cluster/Start/Pair.antt =====
-- The owner and the receipt behind a `start` that succeeded.
use strix_halo_cluster_glm.Base.{
  String, [], ◌∷◌, ◌≡◌, refl, sym, ap, ◌∙◌, subst, true, false, Result, ok, err, sprint, sprintf_d,
  has_prefix,
}
use strix_halo_cluster_glm.Base.Integer.{pos}
use strix_halo_cluster_glm.Cluster.Owner.{OwnedUnit, ClusterOwner, ClusterConfig}
use strix_halo_cluster_glm.Cluster.Lease.{
  SharedComputeReceipt, holding, shared_from_glm, shared_matches_glm,
}
use strix_halo_cluster_glm.Cluster.Receipts.{matches-shared_from_glm}
use strix_halo_cluster_glm.Cluster.Host.{
  World, Host, M, attempt, ignore, when, fail, save, publish, fresh_epoch, ◌>>=◌, ◌>>◌,
}
use strix_halo_cluster_glm.Cluster.Trace.{bind-eq-ok, then-eq-ok}
use strix_halo_cluster_glm.Cluster.Units.{valid_units}
use strix_halo_cluster_glm.Cluster.Stop.{is_shared, stop_units}
use strix_halo_cluster_glm.Cluster.Stop.Success.{then-fail}
use strix_halo_cluster_glm.Cluster.Start.{
  is_legacy, start_body, start_cleanup, start_checks, starting_owner, publish_cleanup, stopped_or,
  cleaned, start,
}
use strix_halo_cluster_glm.Cluster.Start.Launched.{IsLaunched}
use strix_halo_cluster_glm.Cluster.Start.Ready.{Ready, start_body-Ready}

module _ (w : World) (cfg : ClusterConfig) where
  cleanup-ok :
      (o : ClusterOwner) (r : Result (Unit {0})) (h : Host)
      → (start_cleanup w cfg (o, r) h).0 ≡ ok tt
      → (r ≡ ok tt) × ((start_cleanup w cfg (o, r) h).1 ≡ h)
  unfolding start_cleanup
  cleanup-ok o (ok _) h e = (refl, refl)
  cleanup-ok o (err x) h e =
      let finish = λ (r : Result (Unit {0})).
        let o' = record o { state = stopped_or r } in
        when (is_shared cfg) (ignore (publish_cleanup w cfg o' r))
        >> (ignore (save w (record o' { error = cleaned x r })) >> fail (cleaned x r)) in
      let (r, _, s) = bind-eq-ok (attempt (stop_units w o.units false)) finish h e in
      let h₁ = (stop_units w o.units false h).1 in
      let o' = record o { state = stopped_or r } in
      let announce = when (is_shared cfg) (ignore (publish_cleanup w cfg o' r)) in
      let note = ignore (save w (record o' { error = cleaned x r })) in
      let (_, s') =
        then-eq-ok announce (note >> fail (cleaned x r)) h₁ (ap (λ x. x.0) (sym s) ∙ e) in
      absurd (then-fail note (cleaned x r) (announce h₁).1 (ap (λ x. x.0) (sym (s ∙ s')) ∙ e))

  -- The pair behind a `start` that succeeded.
  record Pair (final : Host) : Type 0 where
    owner : ClusterOwner
    first : OwnedUnit
    second : OwnedUnit
    up_0 : IsLaunched w cfg owner.epoch (pos 0) first final
    up_1 : IsLaunched w cfg owner.epoch (pos 1) second final
    units : owner.units ≡ first ∷ second ∷ []
    ready : Ready w cfg owner final

  body-Pair :
      (o : ClusterOwner) (h : Host)
      → o.units ≡ []
      → ((start_body w cfg o >>= start_cleanup w cfg) h).0 ≡ ok tt
      → Pair ((start_body w cfg o >>= start_cleanup w cfg) h).1
  body-Pair o h fresh e =
      let ((o', r), started, s) = bind-eq-ok (start_body w cfg o) (start_cleanup w cfg) h e in
      let h' = (start_body w cfg o h).1 in
      let (r_ok, same) = cleanup-ok o' r h' (ap (λ x. x.0) (sym s) ∙ e) in
      let (u, v, up, vp, units, ready) =
        start_body-Ready w cfg o o' h fresh (started ∙ ap (λ x. ok (o', x)) r_ok) in
      subst Pair (sym (ap (λ x. x.1) s ∙ same)) (record {
        owner = o';
        first = u;
        second = v;
        up_0 = up;
        up_1 = vp;
        units = units;
        ready = ready;
      })

  unfoldable reserve : (o : ClusterOwner) → M (Unit {0})
  reserve o =
      save w o
      >> (when (is_shared cfg) (
            publish w cfg (
              shared_from_glm "STARTING" o
                "GLM whole-pair start reserved; no rank identity confirmed yet"))
          >> (start_body w cfg o >>= start_cleanup w cfg))

  reserve-Pair :
      (o : ClusterOwner) (h : Host) → o.units ≡ [] → (reserve o h).0 ≡ ok tt → Pair (reserve o h).1
  unfolding reserve
  reserve-Pair o h fresh e =
      let body = start_body w cfg o >>= start_cleanup w cfg in
      let announce = when (is_shared cfg) (
        publish w cfg (
          shared_from_glm "STARTING" o
            "GLM whole-pair start reserved; no rank identity confirmed yet")) in
      let (_, s) = then-eq-ok (save w o) (announce >> body) h e in
      let h₁ = (save w o h).1 in
      let e₁ = ap (λ x. x.0) (sym s) ∙ e in
      let (_, s₁) = then-eq-ok announce body h₁ e₁ in
      subst Pair (sym (ap (λ x. x.1) (s ∙ s₁)))
        (body-Pair o (announce h₁).1 fresh (ap (λ x. x.0) (sym s₁) ∙ e₁))

  start-Pair : (h : Host) → (start w cfg h).0 ≡ ok tt → Pair (start w cfg h).1
  unfolding start reserve
  start-Pair h e =
      let rest = λ (epoch : String). reserve (starting_owner epoch) in
      let (_, s) = then-eq-ok (start_checks w cfg) (fresh_epoch w >>= rest) h e in
      let h₁ = (start_checks w cfg h).1 in
      let e₁ = ap (λ x. x.0) (sym s) ∙ e in
      let (epoch, _, s₁) = bind-eq-ok (fresh_epoch w) rest h₁ e₁ in
      subst Pair (sym (ap (λ x. x.1) (s ∙ s₁))) (
        reserve-Pair (starting_owner epoch) (fresh_epoch w h₁).1 refl (ap (λ x. x.0) (sym s₁) ∙ e₁))

  legacy-launched :
      (u v : OwnedUnit) (epoch : String) (final : Host)
      → IsLaunched w cfg epoch (pos 0) u final
      → is_legacy (u ∷ v ∷ []) ≡ false
  unfolding has_prefix sprint sprintf_d
  legacy-launched u v epoch final up = subst (λ n. has_prefix n "ciru-" ≡ false) (sym up.name) refl

  Pair-valid : (h : Host) (p : Pair h) → valid_units p.owner.units false ≡ ok tt
  Pair-valid h p =
      subst (λ b. valid_units p.owner.units b ≡ ok tt)
        (ap is_legacy p.units ∙ legacy-launched p.first p.second _ _ p.up_0) p.ready.valid

  -- Where the controller's `start` succeeds, the owner file holds a ready pair: one unit of rank 0 and
  -- then one of rank 1, which pass the controller's check of an owned pair. For each of them the run
  -- has executed the systemd-run of that rank's engine, under the unit's name and nonce and in the
  -- owner's epoch, without an error, and right behind it the unit answered that it is active, with that
  -- nonce in its environment and with the invocation that the owner records.
  pub start-ready :
      (h : Host)
      → (start w cfg h).0 ≡ ok tt
      → (o : ClusterOwner) × ((start w cfg h).1.owner ≡ holding o)
        × (o.state ≡ "ready")
        × ((u v : OwnedUnit) × (o.units ≡ u ∷ v ∷ [])
            × IsLaunched w cfg o.epoch (pos 0) u (start w cfg h).1
            × IsLaunched w cfg o.epoch (pos 1) v (start w cfg h).1)
        × (valid_units o.units false ≡ ok tt)
  start-ready h e =
      let p = start-Pair h e in
      (
        record p.owner { updated = p.ready.time },
        p.ready.owner,
        p.ready.state,
        (p.first, p.second, p.units, p.up_0, p.up_1),
        Pair-valid (start w cfg h).1 p,
      )

  -- Where the controller's `start` succeeds with the shared lease in use, the receipt is a RUNNING
  -- one that matches the owner file unit by unit.
  pub start-matches :
      (h : Host)
      → (start w cfg h).0 ≡ ok tt
      → is_shared cfg ≡ true
      → (o : ClusterOwner) × (r : SharedComputeReceipt) × ((start w cfg h).1.owner ≡ holding o)
        × ((start w cfg h).1.shared ≡ holding r)
        × (r.state ≡ "RUNNING")
        × (shared_matches_glm r o ≡ ok tt)
  unfolding shared_from_glm
  start-matches h e t =
      let p = start-Pair h e in
      let (detail, now, there) = p.ready.receipt t in
      (
        record p.owner { updated = p.ready.time },
        record (shared_from_glm "RUNNING" p.owner detail) { updated = now },
        p.ready.owner,
        there,
        refl,
        matches-shared_from_glm (record p.owner { updated = p.ready.time }) "RUNNING" detail now
            (Pair-valid (start w cfg h).1 p),
      )
