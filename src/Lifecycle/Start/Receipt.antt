-- ===== src/Lifecycle/Start/Receipt.antt =====
-- The READY receipt that a start publishes.
use strix_halo_cluster_glm.Base.{
  String, ◌≡◌, ◌≢◌, refl, sym, ap, ◌∙◌, subst, ℕ, zero, suc, Bool, true, false, Result, ok, err,
  ◌==◌, sprint-ne-of_prefix, ne_of_test, ok-injective, has_prefix,
}
use strix_halo_cluster_glm.Base.Integer.{ℤ}
use strix_halo_cluster_glm.Cluster.Owner.{ClusterOwner, ClusterConfig}
use strix_halo_cluster_glm.Cluster.Lease.{
  Stored, missing, unreadable, holding, shared_from_glm, shared_matches_glm,
}
use strix_halo_cluster_glm.Cluster.Host
use strix_halo_cluster_glm.Cluster.Host.{
  World, Host, M, probed, pure, continue, record_action, attempt, ignore, lift, publish,
  read_shared, read_owner, with_lock, found_owner, ◌>>=◌,
}
use strix_halo_cluster_glm.Cluster.Trace.{bind-eq-ok, then-eq-ok}
use strix_halo_cluster_glm.Cluster.Control.Locks.{with_lock-Inside}
use strix_halo_cluster_glm.Cluster.Lease.Files.{read-checked}
use strix_halo_cluster_glm.Cluster.Stop.Success.{publish-ok, publish-owner}
use strix_halo_cluster_glm.Lifecycle.Services.{
  Services, Inference, backend_health, health_polls, run_local, infer,
}
use strix_halo_cluster_glm.Lifecycle.Presence.{Presence}
use strix_halo_cluster_glm.Lifecycle.Snapshot.{Lifecycle}
use strix_halo_cluster_glm.Lifecycle.Operation.{finish_operation}
use strix_halo_cluster_glm.Lifecycle.Start.{
  handled, passed, or_finish, finishing, refused_start, unless_healthy, poll_health,
  readiness_inference, publish_ready, start_receipt, start_readiness, if_healthy, start_health,
  start_coordinator, stop_pair, start_pair, unloaded, compute_lock,
}

-- The detail that only a start which went through leaves.
abbrev pub done : String
done = "both ranks and coordinator READY"

abbrev pub IsDone : Lifecycle → Type 0
IsDone m = m.detail ≡ done

pub finishing-Done :
    (detail e : String) (m l : Lifecycle) (h : Host)
    → (detail == done) ≡ false
    → IsDone l
    → (finishing detail e m h).0 ≢ ok l
unfolding finish_operation
finishing-Done detail e m l h other ends same =
    ne_of_test detail done other (ap (λ z. z.detail) (ok-injective same) ∙ ends)

pub refused_start-other : (rank : ℤ) (p : Presence) → (refused_start rank p == done) ≡ false
unfolding has_prefix
refused_start-other rank p = sprint-ne-of_prefix "GLM start refused: DS41 rank" _ done refl

-- A step that leads to success succeeded, and what follows it led there.
pub or_finish-Done :
    {A : Type 0} (m : M A) (failed : String → M Lifecycle) (next : A → M Lifecycle) (h : Host)
    (l : Lifecycle)
    → ((e : String) (h : Host) → (failed e h).0 ≢ ok l)
    → (or_finish m failed next h).0 ≡ ok l
    → (a : A) × ((m h).0 ≡ ok a) × (or_finish m failed next h ≡ next a (m h).1)
unfolding or_finish
or_finish-Done {A} m failed next h l never e =
    let (r, ran, s) = bind-eq-ok (attempt m) (handled failed next) h e in
    on r (ok-injective ran) (ap (λ z. z.0) (sym s) ∙ e) s
  where
    on :
        (r : Result A)
        → (m h).0 ≡ r
        → (handled failed next r (m h).1).0 ≡ ok l
        → (attempt m >>= handled failed next) h ≡ handled failed next r (m h).1
        → (a : A) × ((m h).0 ≡ ok a) × ((attempt m >>= handled failed next) h ≡ next a (m h).1)
    on (ok a) ran e s = (a, ran, s)
    on (err x) ran e s = absurd (never x (m h).1 e)

-- A failure that undoes something before it finishes.
pub undone-Done :
    (m : M (Unit {0})) (k : M Lifecycle) (l : Lifecycle) (h : Host)
    → ((h : Host) → (k h).0 ≢ ok l)
    → (Host.◌>>◌ m k h).0 ≢ ok l
undone-Done m k l h never e =
    let (_, s) = then-eq-ok m k h e in never (m h).1 (ap (λ z. z.0) (sym s) ∙ e)

-- The files behind a published READY receipt: it is made from the owner file, which stays.
pub record Published (h final : Host) : Type 0 where
  pub owner : ClusterOwner
  pub held : h.owner ≡ holding owner
  pub kept : final.owner ≡ h.owner
  pub detail : String
  pub now : String
  pub shared :
      final.shared ≡ holding (record (shared_from_glm "READY" owner detail) { updated = now })

Published-from : (h h' final : Host) → h'.owner ≡ h.owner → Published h' final → Published h final
Published-from h h' final same p = record {
  owner = p.owner;
  held = sym same ∙ p.held;
  kept = p.kept ∙ same;
  detail = p.detail;
  now = p.now;
  shared = p.shared;
}

module _ (w : World) (s : Services) (cfg : ClusterConfig) where
  publish_ready-Published :
      (o : ClusterOwner) (h : Host)
      → h.owner ≡ holding o
      → (publish_ready w cfg o h).0 ≡ ok tt
      → Published h (publish_ready w cfg o h).1
  unfolding publish_ready read_shared shared_from_glm
  publish_ready-Published o h held e =
      let write = publish w cfg (
        shared_from_glm "READY" o
          "both ranks, coordinator health and minimal readiness inference passed") in
      let (cur, _, s₀) = bind-eq-ok (read_shared w cfg) _ h e in
      let e₀ = ap (λ z. z.0) (sym s₀) ∙ e in
      let (_, s₁) = then-eq-ok (lift (shared_matches_glm cur o)) write h e₀ in
      let (stored, checked, there) = publish-ok w cfg _ h (ap (λ z. z.0) (sym s₁) ∙ e₀) in
      subst (Published h) (ap (λ z. z.1) (sym (s₀ ∙ s₁))) (record {
        owner = o;
        held = held;
        kept = publish-owner w cfg _ h;
        detail = "both ranks, coordinator health and minimal readiness inference passed";
        now = w.now h.history;
        shared = there ∙ ap holding (read-checked _ _ _ stored checked).1;
      })

  start_receipt-Published :
      (receipt : String) (m l : Lifecycle) (h : Host)
      → IsDone l
      → (start_receipt w cfg receipt m h).0 ≡ ok l
      → Published h (start_receipt w cfg receipt m h).1
  unfolding start_receipt read_owner
  start_receipt-Published receipt m l h ends e =
      let (o, found, s₀) =
        or_finish-Done (read_owner w) _ _ h l (λ x h'. finishing-Done _ x m l h' refl ends) e in
      let e₀ = ap (λ z. z.0) (sym s₀) ∙ e in
      let (_, wrote, s₁) =
        or_finish-Done (with_lock w (compute_lock cfg) (publish_ready w cfg o)) _ _ h l
          (λ x h'. finishing-Done _ x m l h' refl ends) e₀ in
      let x = with_lock-Inside w (compute_lock cfg) (publish_ready w cfg o) h wrote in
      let p =
        publish_ready-Published o x.begin (x.owner ∙ found_holding h.owner o found) x.result in
      subst (Published h) (ap (λ z. z.1) (sym (s₀ ∙ s₁))) (record {
        owner = p.owner;
        held = sym x.owner ∙ p.held;
        kept = x.owner' ∙ p.kept ∙ x.owner;
        detail = p.detail;
        now = p.now;
        shared = x.shared' ∙ p.shared;
      })
    where
      found_holding :
          (file : Stored ClusterOwner) (o : ClusterOwner)
          → found_owner file ≡ ok o
          → file ≡ holding o
      found_holding missing o e = cc
      found_holding (unreadable x) o e = cc
      found_holding (holding o') o e = ap holding (ok-injective e)

  unloading-Done :
      (detail e : String) (m l : Lifecycle) (h : Host)
      → (detail == done) ≡ false
      → IsDone l
      → (Host.◌>>◌ (ignore (stop_pair s)) (Host.◌>>◌ (unloaded w cfg) (finishing detail e m)) h).0
        ≢ ok l
  unloading-Done detail e m l h other ends = undone-Done (ignore (stop_pair s)) _ l h (λ h'.
      undone-Done (unloaded w cfg) _ l h' (λ h''. finishing-Done detail e m l h'' other ends))

  start_readiness-Published :
      (m l : Lifecycle) (h : Host)
      → IsDone l
      → (start_readiness w s cfg m h).0 ≡ ok l
      → Published h (start_readiness w s cfg m h).1
  unfolding start_readiness readiness_inference infer Host.◌>>=◌
  start_readiness-Published m l h ends e =
      let (receipt, _, same) =
        or_finish-Done (readiness_inference s) _ (λ r. start_receipt w cfg r m) h l
          (λ x h'. unloading-Done _ x m l h' refl ends) e in
      subst (Published h) (ap (λ z. z.1) (sym same)) (
        Published-from h _ _ (inferred h)
          (start_receipt-Published receipt m l _ ends (ap (λ z. z.0) (sym same) ∙ e)))
    where
      inferred : (h : Host) → (readiness_inference s h).1.owner ≡ h.owner
      inferred h = go (s.inference h.history)
        where
          go :
              (r : Result Inference)
              → (continue r (λ x. lift (passed x)) (record_action (probed "inference") h)).1.owner
                ≡ h.owner
          go (ok x) = refl
          go (err x) = refl

  poll_health-owner : (n : ℕ) (h : Host) → (poll_health s n h).1.owner ≡ h.owner
  unfolding poll_health backend_health Host.◌>>=◌
  poll_health-owner zero h = refl
  poll_health-owner (suc n) h =
      go (s.backend h.history) (poll_health-owner n (record_action (probed "backend") h))
    where
      go :
          (b : Bool)
          → (poll_health s n (record_action (probed "backend") h)).1.owner ≡ h.owner
          → (unless_healthy (poll_health s n) b (record_action (probed "backend") h)).1.owner
            ≡ h.owner
      go true later = refl
      go false later = later

  if_healthy-Published :
      (b : Bool) (m l : Lifecycle) (h : Host)
      → IsDone l
      → (if_healthy w s cfg m b h).0 ≡ ok l
      → Published h (if_healthy w s cfg m b h).1
  if_healthy-Published true m l h ends e = start_readiness-Published _ l h ends e
  if_healthy-Published false m l h ends e = absurd (unloading-Done _ _ m l h refl ends e)

  start_health-Published :
      (m l : Lifecycle) (h : Host)
      → IsDone l
      → (start_health w s cfg m h).0 ≡ ok l
      → Published h (start_health w s cfg m h).1
  unfolding start_health health_polls backend_health
  start_health-Published m l h ends e =
      let (n, _, s₀) = bind-eq-ok (health_polls s) _ h e in
      let e₀ = ap (λ z. z.0) (sym s₀) ∙ e in
      let (_, s₁) = then-eq-ok (poll_health s n) (backend_health s >>= if_healthy w s cfg m) h e₀ in
      let h₁ = (poll_health s n h).1 in
      let e₁ = ap (λ z. z.0) (sym s₁) ∙ e₀ in
      let (b, _, s₂) = bind-eq-ok (backend_health s) (if_healthy w s cfg m) h₁ e₁ in
      subst (Published h) (ap (λ z. z.1) (sym (s₀ ∙ (s₁ ∙ s₂)))) (
        Published-from h _ _ (poll_health-owner n h) (
          if_healthy-Published b m l (record_action (probed "backend") h₁) ends
            (ap (λ z. z.0) (sym s₂) ∙ e₁)))

  pub start_coordinator-Published :
      (m l : Lifecycle) (h : Host)
      → IsDone l
      → (start_coordinator w s cfg m h).0 ≡ ok l
      → Published h (start_coordinator w s cfg m h).1
  unfolding start_coordinator run_local
  start_coordinator-Published m l h ends e =
      let (_, _, same) =
        or_finish-Done (start_pair s) _ (λ _. start_health w s cfg m) h l
          (λ x h'.
            undone-Done (unloaded w cfg) _ l h' (λ h''. finishing-Done _ x m l h'' refl ends))
          e in
      subst (Published h) (ap (λ z. z.1) (sym same)) (
        Published-from h _ _ refl
          (start_health-Published m l _ ends (ap (λ z. z.0) (sym same) ∙ e)))
