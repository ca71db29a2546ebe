-- ===== src/Cluster/Start/Ready.antt =====
-- What a successful `start` has established.
use strix_halo_cluster_glm.Base.{
  String, List, [], ◌∷◌, ◌++◌, ℕ, zero, suc, ◌≡◌, refl, sym, ap, ◌∙◌, subst, arith, Bool, true,
  false, Result, ok, err, ◌&&◌, sprint, sprintf_d,
}
use strix_halo_cluster_glm.Base.Integer.{ℤ, pos}
use strix_halo_cluster_glm.Cluster.Owner.{OwnedUnit, ClusterOwner, ClusterConfig}
use strix_halo_cluster_glm.Cluster.Lease.{SharedComputeReceipt, holding, shared_from_glm}
use strix_halo_cluster_glm.Cluster.Lease.Files.{read-checked}
use strix_halo_cluster_glm.Cluster.Host.{
  World, Host, M, pure, lift, controller_health, attempt, fail, when, save, publish, fresh_nonce,
  health_rounds, ◌>>=◌, ◌>>◌,
}
use strix_halo_cluster_glm.Cluster.Trace.{bind-eq-ok, then-eq-ok, ok-injective}
use strix_halo_cluster_glm.Cluster.Units.{valid_units, inspect_each, inspect_all}
use strix_halo_cluster_glm.Cluster.Stop.{is_shared}
use strix_halo_cluster_glm.Cluster.Stop.Success.{save-ok, publish-ok, publish-owner}
use strix_halo_cluster_glm.Cluster.Start.Grows.{
  Grows, Grows-trans, fresh_nonce-Grow, save-Grow, publish-Grow, when-Grow, wait_health-Grow,
}
use strix_halo_cluster_glm.Cluster.Start.Launched.{
  IsLaunched, IsLaunched-later, launch-Up, Up-IsLaunched,
}
use strix_halo_cluster_glm.Cluster.Start.{
  is_legacy, all_running, health_round, wait_rounds, wait_health, Started, on_ok, or_return,
  with_unit, reserved, launch, launched, rank_args, rank_log, start_rank, start_ready, start_body,
}

abbrev result_of : {A : Type 0} → Result A × Host → Result A
result_of x = x.0

abbrev host_of : {A : Type 0} → Result A × Host → Host
host_of x = x.1

-- A step of the body that was passed.
or_return-ok :
    (m : M (Unit {0})) (o o' : ClusterOwner) (k : M Started) (h : Host)
    → (or_return m o k h).0 ≡ ok (o', ok tt)
    → ((m h).0 ≡ ok tt) × (or_return m o k h ≡ k (m h).1)
unfolding or_return ◌>>=◌
or_return-ok m o o' k h e = go (m h).0 e
  where
    go :
        (r : Result (Unit {0}))
        → (on_ok o k r (m h).1).0 ≡ ok (o', ok tt)
        → (r ≡ ok tt) × (on_ok o k r (m h).1 ≡ k (m h).1)
    go (ok _) e = (refl, refl)
    go (err x) e = absurd (ground arith)

module _ (w : World) where
  round-valid :
      (a b : String) (us : List OwnedUnit) (h : Host) (healthy : Bool)
      → (health_round w a b us h).0 ≡ ok healthy
      → valid_units us (is_legacy us) ≡ ok tt
  unfolding health_round inspect_all
  round-valid a b us h healthy round =
      let answers =
        all_running w us
        >> (controller_health w a >>= λ x. controller_health w b >>= λ y. pure (x && y)) in
      let (inspected, _) = then-eq-ok (inspect_all w us (is_legacy us)) answers h round in
      (then-eq-ok (lift (valid_units us (is_legacy us))) (inspect_each w us) h inspected).0

  wait_rounds-valid :
      (a b : String) (us : List OwnedUnit) (n : ℕ) (h : Host)
      → (wait_rounds w a b us n h).0 ≡ ok tt
      → valid_units us (is_legacy us) ≡ ok tt
  unfolding wait_rounds
  wait_rounds-valid a b us zero h e =
      let (_, round, _) =
        bind-eq-ok (health_round w a b us)
          (λ healthy. elim healthy [ true ↦ pure tt | false ↦ fail "context deadline exceeded" ]) h
          e in
      round-valid a b us h _ round
  wait_rounds-valid a b us (suc n) h e =
      let (_, round, _) =
        bind-eq-ok (health_round w a b us)
          (λ healthy. elim healthy [ true ↦ pure tt | false ↦ wait_rounds w a b us n ]) h e in
      round-valid a b us h _ round

  wait_health-valid :
      (a b : String) (us : List OwnedUnit) (h : Host)
      → (wait_health w a b us h).0 ≡ ok tt
      → valid_units us (is_legacy us) ≡ ok tt
  unfolding wait_health
  wait_health-valid a b us h e =
      let (n, _, same) = bind-eq-ok (health_rounds w) (wait_rounds w a b us) h e in
      wait_rounds-valid a b us n _ (ap (λ x. x.0) (sym same) ∙ e)

  module _ (cfg : ClusterConfig) where
    -- The files behind a start that succeeded.
    pub record Ready (o : ClusterOwner) (final : Host) : Type 0 where
      pub valid : valid_units o.units (is_legacy o.units) ≡ ok tt
      pub state : o.state ≡ "ready"
      pub time : String
      pub owner : final.owner ≡ holding (record o { updated = time })
      pub receipt :
          is_shared cfg ≡ true
          → (detail now : String) × (final.shared
              ≡ holding (record (shared_from_glm "RUNNING" o detail) { updated = now }))

    running-owner :
        (b : Bool) (r : SharedComputeReceipt) (h : Host)
        → (when b (publish w cfg r) h).1.owner ≡ h.owner
    running-owner true r h = publish-owner w cfg r h
    running-owner false r h = refl

    running-shared :
        (b : Bool) (o : ClusterOwner) (detail : String) (h : Host)
        → (when b (publish w cfg (shared_from_glm "RUNNING" o detail)) h).0 ≡ ok tt
        → b ≡ true
        → (when b (publish w cfg (shared_from_glm "RUNNING" o detail)) h).1.shared
          ≡ holding (record (shared_from_glm "RUNNING" o detail) { updated = w.now h.history })
    unfolding shared_from_glm
    running-shared true o detail h e t =
        let r = shared_from_glm "RUNNING" o detail in
        let (stored, checked, there) = publish-ok w cfg r h e in
        there ∙ ap holding (read-checked _ _ r stored checked).1
    running-shared false o detail h e t = cc

    abbrev running_detail : String
    running_detail = "both GLM ranks healthy and identity-confirmed; coordinator/readiness pending"

    start_ready-Ready :
        (o o' : ClusterOwner) (h : Host)
        → (start_ready w cfg o h).0 ≡ ok (o', ok tt)
        → (o'.units ≡ o.units)
          × (o'.epoch ≡ o.epoch)
          × Ready o' (start_ready w cfg o h).1
          × Grows h (start_ready w cfg o h).1
    unfolding start_ready
    start_ready-Ready o o' h e =
        let r = record o { state = "ready" } in
        let announce =
          when (is_shared cfg) (publish w cfg (shared_from_glm "RUNNING" r running_detail)) in
        let last : M Started = pure (r, ok tt) in
        let (healthy, s₁) =
          or_return-ok (wait_health w cfg.rank_url_0 cfg.rank_url_1 o.units) o o'
            (or_return (save w r) r (or_return announce r last)) h e in
        let h₁ = (wait_health w cfg.rank_url_0 cfg.rank_url_1 o.units h).1 in
        let e₁ = ap (λ x. x.0) (sym s₁) ∙ e in
        let (saved, s₂) = or_return-ok (save w r) r o' (or_return announce r last) h₁ e₁ in
        let h₂ = (save w r h₁).1 in
        let e₂ = ap (λ x. x.0) (sym s₂) ∙ e₁ in
        let (announced, s₃) = or_return-ok announce r o' last h₂ e₂ in
        let same : r ≡ o' = ap (λ x. x.0) (ok-injective (ap (λ x. x.0) (sym s₃) ∙ e₂)) in
        let final = ap (λ x. x.1) (s₁ ∙ s₂ ∙ s₃) in
        (
          ap (λ x. x.units) (sym same),
          ap (λ x. x.epoch) (sym same),
          subst (λ x. Ready x (start_ready w cfg o h).1) same
              (record {
                valid = wait_health-valid cfg.rank_url_0 cfg.rank_url_1 o.units h healthy;
                state = refl;
                time = w.now h₁.history;
                owner =
                    ap (λ x. x.owner) final
                    ∙ running-owner (is_shared cfg) _ h₂
                    ∙ save-ok w r h₁ saved;
                receipt = λ t. (
                  running_detail,
                  w.now h₂.history,
                  ap (λ x. x.shared) final
                      ∙ running-shared (is_shared cfg) r running_detail h₂ announced t,
                );
              }),
          subst (Grows h) (sym final) (
              Grows-trans (wait_health-Grow w cfg.rank_url_0 cfg.rank_url_1 o.units h) (
                Grows-trans (save-Grow w r h₁)
                  (when-Grow (is_shared cfg) _ (publish-Grow w cfg _) h₂))),
        )

    launched-ok :
        (o o' : ClusterOwner) (u : OwnedUnit) (next : ClusterOwner → M Started) (r : Result String)
        (h : Host)
        → (launched w cfg o u next r h).0 ≡ ok (o', ok tt)
        → (id : String) × (h' : Host) × (r ≡ ok id)
          × Grows h h'
          × (launched w cfg o u next r h ≡ next (with_unit o (record u { invocation_id = id })) h')
    launched-ok o o' u next (err x) h e = absurd (ground arith)
    launched-ok o o' u next (ok id) h e =
        let r = with_unit o (record u { invocation_id = id }) in
        let announce = when (is_shared cfg) (
          publish w cfg (
            shared_from_glm "STARTING" r
              (sprint ("GLM rank" ∷ sprintf_d u.rank ∷ " identity confirmed" ∷ [])))) in
        let (_, s₁) = or_return-ok (save w r) r o' (or_return announce r (next r)) h e in
        let h₁ = (save w r h).1 in
        let (_, s₂) = or_return-ok announce r o' (next r) h₁ (ap (λ x. x.0) (sym s₁) ∙ e) in
        (
          id,
          (announce h₁).1,
          refl,
          Grows-trans (save-Grow w r h) (when-Grow (is_shared cfg) _ (publish-Grow w cfg _) h₁),
          s₁ ∙ s₂,
        )

    start_rank-ok :
        (rank : ℤ) (o o' : ClusterOwner) (next : ClusterOwner → M Started) (h : Host)
        → (start_rank w cfg rank o next h).0 ≡ ok (o', ok tt)
        → (u : OwnedUnit) × (h' : Host) × IsLaunched w cfg o.epoch rank u h'
          × Grows h h'
          × (start_rank w cfg rank o next h ≡ next (with_unit o u) h')
    unfolding start_rank
    start_rank-ok rank o o' next h e =
        let reach = λ (nonce : String).
          let u = reserved rank nonce in
          attempt (launch w u (rank_args cfg o rank) (rank_log cfg o rank) "124554051584")
          >>= launched w cfg o u next in
        let body = λ (nonce : String).
          let u = reserved rank nonce in
          or_return (save w (with_unit o u)) (with_unit o u) (reach nonce) in
        let (nonce, _, s₀) = bind-eq-ok (fresh_nonce w) body h e in
        let u = reserved rank nonce in
        let h₀ = (fresh_nonce w h).1 in
        let e₀ = ap (λ x. x.0) (sym s₀) ∙ e in
        let (_, s₁) =
          or_return-ok (save w (with_unit o u)) (with_unit o u) o' (reach nonce) h₀ e₀ in
        let h₁ = (save w (with_unit o u) h₀).1 in
        let e₁ = ap (λ x. x.0) (sym s₁) ∙ e₀ in
        let up = attempt (launch w u (rank_args cfg o rank) (rank_log cfg o rank) "124554051584") in
        let (r, tried, s₂) = bind-eq-ok up (launched w cfg o u next) h₁ e₁ in
        let (id, h', r_ok, grown, s₃) =
          launched-ok o o' u next r (up h₁).1 (ap (λ x. x.0) (sym s₂) ∙ e₁) in
        let x =
          launch-Up w u (rank_args cfg o rank) (rank_log cfg o rank) "124554051584" h₁ id
            (ok-injective tried ∙ r_ok) in
        (
          record u { invocation_id = id },
          h',
          Up-IsLaunched w cfg o rank nonce id h₁ _ h' x grown,
          Grows-trans (fresh_nonce-Grow w h)
              (Grows-trans (save-Grow w (with_unit o u) h₀) (Grows-trans x.grown grown)),
          s₀ ∙ s₁ ∙ s₂ ∙ s₃,
        )

    -- The body of `start`: two ranks launched in order, and the pair ready.
    pub start_body-Ready :
        (o o' : ClusterOwner) (h : Host)
        → o.units ≡ []
        → (start_body w cfg o h).0 ≡ ok (o', ok tt)
        → (u v : OwnedUnit) × IsLaunched w cfg o'.epoch (pos 0) u (start_body w cfg o h).1
          × IsLaunched w cfg o'.epoch (pos 1) v (start_body w cfg o h).1
          × (o'.units ≡ u ∷ v ∷ [])
          × Ready o' (start_body w cfg o h).1
    unfolding start_body
    start_body-Ready o o' h fresh e =
        let second = λ (x : ClusterOwner). start_rank w cfg (pos 1) x (start_ready w cfg) in
        let (u, h₁, up, _, s₁) = start_rank-ok (pos 0) o o' second h e in
        let o₁ = with_unit o u in
        let e₁ = ap (λ x. x.0) (sym s₁) ∙ e in
        let (v, h₂, vp, grown, s₂) = start_rank-ok (pos 1) o₁ o' (start_ready w cfg) h₁ e₁ in
        let (units, epoch, ready, grown') =
          start_ready-Ready (with_unit o₁ v) o' h₂ (ap (λ x. x.0) (sym s₂) ∙ e₁) in
        let final : (start_body w cfg o h).1 ≡ (start_ready w cfg (with_unit o₁ v) h₂).1 =
          ap (λ x. x.1) (s₁ ∙ s₂) in
        let at =
          λ (rank : ℤ) (x : OwnedUnit) (k : Host)
              (g : Grows k (start_ready w cfg (with_unit o₁ v) h₂).1)
              (l : IsLaunched w cfg o.epoch rank x k).
            subst (λ k. IsLaunched w cfg o'.epoch rank x k) (sym final)
              (subst (λ e. IsLaunched w cfg e rank x (start_ready w cfg (with_unit o₁ v) h₂).1)
                (sym epoch) (IsLaunched-later w cfg o.epoch rank x k _ g l)) in
        (
          u,
          v,
          at (pos 0) u h₁ (Grows-trans grown grown') up,
          at (pos 1) v h₂ grown' vp,
          units ∙ ap (λ us. (us ++ u ∷ []) ++ v ∷ []) fresh,
          subst (λ x. Ready o' x) (sym final) ready,
        )
