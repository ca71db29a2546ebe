-- ===== src/Cluster/Stop/Success.antt =====
-- What a successful `stop` leaves behind.
use strix_halo_cluster_glm.Base.{
  String, ◌≡◌, refl, sym, ap, ◌∙◌, subst, inl, inr, Bool, true, false, Result, ok, err, ◌==◌, ◌&&◌,
  eq_iff, Result-cases,
}
use strix_halo_cluster_glm.Cluster.Owner.{ClusterOwner, ClusterConfig}
use strix_halo_cluster_glm.Cluster.Lease.{
  SharedComputeReceipt, Stored, missing, unreadable, holding, checked_receipt, shared_off,
  shared_start_allowed, read_shared_compute,
}
use strix_halo_cluster_glm.Cluster.Lease.Files.{read-checked}
use strix_halo_cluster_glm.Cluster.Host.{
  World, Host, M, WriteOutcome, committed, refused, unsynced, published, written, continue, pure,
  save, publish, write_receipt, archive_poison, archive_present, archive_outcome, archived,
  read_shared, read_owner, found_owner, ◌>>=◌, ◌>>◌, attempt, when, ignore, fail,
}
use strix_halo_cluster_glm.Cluster.Trace.{bind-eq-ok, then-eq-ok, ok-injective}
use strix_halo_cluster_glm.Cluster.Stop.{
  Claim, is_shared, claim_with, claim_found, claim_stopping, stop_failed, release_shared,
  stop_proven, after_stop, stop_units, stop,
}
use strix_halo_cluster_glm.Cluster.Stop.Release.{Admits}

written-ok :
    {A : Type 0} (x : WriteOutcome) (new : A) (old : Stored A)
    → (written x new old).0 ≡ ok tt
    → (written x new old).1 ≡ holding new
written-ok committed new old h = refl
written-ok (refused e) new old h = cc
written-ok (unsynced e) new old h = cc

archive_outcome-ok :
    (x : WriteOutcome) (b : Bool)
    → (archive_outcome x b).0 ≡ ok tt
    → (archive_outcome x b).1 ≡ false
archive_outcome-ok committed b h = refl
archive_outcome-ok (refused e) b h = cc
archive_outcome-ok (unsynced e) b h = cc

err-ne-ok : {A : Type 0} {x : String} {a : A} → Result.err x ≡ ok a → ⊥
err-ne-ok e = cc

pub then-fail :
    {A : Type 0} (m : M (Unit {0})) (x : String) (h : Host) {a : A} → ((m >> fail x) h).0 ≡ ok a → ⊥
then-fail m x h e =
    let (_, same) = then-eq-ok m (fail x) h e in err-ne-ok (ap (λ x. x.0) (sym same) ∙ e)

module _ (w : World) where
  pub save-ok :
      (o : ClusterOwner) (h : Host)
      → (save w o h).0 ≡ ok tt
      → (save w o h).1.owner ≡ holding (record o { updated = w.now h.history })
  unfolding save
  save-ok o h e = written-ok (w.write h.history _) _ h.owner e

  archive_present-ok :
      (h : Host) (b : Bool)
      → h.poison ≡ b
      → (archive_present w h b).0 ≡ ok tt
      → ((archive_present w h b).1.poison ≡ false)
        × ((archive_present w h b).1.owner ≡ h.owner)
        × ((archive_present w h b).1.shared ≡ h.shared)
  archive_present-ok h true p e =
      (archive_outcome-ok (w.write h.history archived) true e, refl, refl)
  archive_present-ok h false p e = (p, refl, refl)

  module _ (cfg : ClusterConfig) where
    pub publish-owner :
        (r : SharedComputeReceipt) (h : Host) → ((publish w cfg r h).1.owner ≡ h.owner)
    unfolding publish
    publish-owner r h =
        elim (Result-cases (checked_receipt (w.now h.history) cfg.shared_state_dir r)) [
          | inl (stored, e) ↦ rw e (unfold write_receipt in refl)
          | inr (x, e) ↦ rw e refl
        ]

    -- A publication that succeeds stores the checked receipt.
    pub publish-ok :
        (r : SharedComputeReceipt) (h : Host)
        → (publish w cfg r h).0 ≡ ok tt
        → (stored : SharedComputeReceipt) × (checked_receipt
              (w.now h.history)
              cfg.shared_state_dir
              r
            ≡ ok stored)
          × ((publish w cfg r h).1.shared ≡ holding stored)
    unfolding publish
    publish-ok r h = go (checked_receipt (w.now h.history) cfg.shared_state_dir r)
      where
        go :
            (c : Result SharedComputeReceipt)
            → (continue c (write_receipt w) h).0 ≡ ok tt
            → (stored : SharedComputeReceipt) × (c ≡ ok stored)
              × ((continue c (write_receipt w) h).1.shared ≡ holding stored)
        go (ok stored) e =
            (stored, refl, written-ok (w.write h.history (published stored)) stored h.shared e)
        go (err x) e = cc

    publish_off-Admits :
        (detail : String) (h : Host)
        → (publish w cfg (shared_off detail) h).0 ≡ ok tt
        → Admits (publish w cfg (shared_off detail) h).1.shared
    unfolding shared_off shared_start_allowed
    publish_off-Admits detail h e =
        let (stored, checked, there) = publish-ok (shared_off detail) h e in
        let same = (read-checked _ _ (shared_off detail) stored checked).1 in
        subst Admits (sym there) (rw same refl)

    release_shared-Admits :
        (o : ClusterOwner) (valid : Bool) (h : Host)
        → (release_shared w cfg o valid h).0 ≡ ok tt
        → Admits (release_shared w cfg o valid h).1.shared
    unfolding release_shared
    release_shared-Admits o true h e = publish_off-Admits _ h e
    release_shared-Admits o false h e =
        let (_, same) = then-eq-ok (publish w cfg _) (fail _) h e in
        absurd (err-ne-ok (ap (λ x. x.0) (sym same) ∙ e))

    -- Behind the saved owner: the release of the shared receipt and the archiving of the marker.
    abbrev tail_of : ClusterOwner → Claim → M (Unit {0})
    tail_of o c = when (is_shared cfg && c.0) (release_shared w cfg o c.1) >> archive_poison w

    release_shared-owner :
        (o : ClusterOwner) (valid : Bool) (h : Host)
        → (release_shared w cfg o valid h).0 ≡ ok tt
        → (release_shared w cfg o valid h).1.owner ≡ h.owner
    unfolding release_shared
    release_shared-owner o true h e = publish-owner _ h
    release_shared-owner o false h e =
        let (_, same) = then-eq-ok (publish w cfg _) (fail _) h e in
        absurd (err-ne-ok (ap (λ x. x.0) (sym same) ∙ e))

    when-owner :
        (b : Bool) (o : ClusterOwner) (valid : Bool) (h : Host)
        → (when b (release_shared w cfg o valid) h).0 ≡ ok tt
        → (when b (release_shared w cfg o valid) h).1.owner ≡ h.owner
    when-owner true o valid h e = release_shared-owner o valid h e
    when-owner false o valid h e = refl

    when-Admits :
        (b : Bool) (o : ClusterOwner) (valid : Bool) (h : Host)
        → b ≡ true
        → (when b (release_shared w cfg o valid) h).0 ≡ ok tt
        → Admits (when b (release_shared w cfg o valid) h).1.shared
    when-Admits true o valid h t e = release_shared-Admits o valid h e
    when-Admits false o valid h t e = cc

    record Settled (o : ClusterOwner) (owned : Bool) (final : Host) : Type 0 where
      time : String
      owner : final.owner ≡ holding (record o { state = "stopped"; error = ""; updated = time })
      poison : final.poison ≡ false
      free : (is_shared cfg && owned) ≡ true → Admits final.shared

    stop_proven-Settled :
        (o : ClusterOwner) (c : Claim) (h : Host)
        → (stop_proven w cfg o c h).0 ≡ ok tt
        → Settled o c.0 (stop_proven w cfg o c h).1
    unfolding stop_proven archive_poison
    stop_proven-Settled o c h e =
        let o' = record o { state = "stopped"; error = "" } in
        let (saved_ok, s₁) = then-eq-ok (save w o') (tail_of o' c) h e in
        let h₁ = (save w o' h).1 in
        let e₁ = ap (λ x. x.0) (sym s₁) ∙ e in
        let b = is_shared cfg && c.0 in
        let (released, s₂) =
          then-eq-ok (when b (release_shared w cfg o' c.1)) (archive_poison w) h₁ e₁ in
        let h₂ = (when b (release_shared w cfg o' c.1) h₁).1 in
        let (clear, owner, shared) =
          archive_present-ok h₂ h₂.poison refl (ap (λ x. x.0) (sym s₂) ∙ e₁) in
        let final = ap (λ x. x.1) (s₁ ∙ s₂) in
        record {
          time = w.now h.history;
          owner =
              ap (λ x. x.owner) final
              ∙ owner
              ∙ when-owner b o' c.1 h₁ released
              ∙ save-ok o' h saved_ok;
          poison = ap (λ x. x.poison) final ∙ clear;
          free = λ t.
              subst Admits (sym (ap (λ x. x.shared) final ∙ shared))
                (when-Admits b o' c.1 h₁ t released);
        }

    after_stop-Settled :
        (o : ClusterOwner) (c : Claim) (r : Result (Unit {0})) (h : Host)
        → (after_stop w cfg o c r h).0 ≡ ok tt
        → Settled o c.0 (after_stop w cfg o c r h).1
    unfolding stop_failed
    after_stop-Settled o c (ok _) h e = stop_proven-Settled o c h e
    after_stop-Settled o c (err x) h e =
        let o' = record o { state = "cleanup_uncertain"; error = x } in
        let tail = when (is_shared cfg && c.0) _ >> fail x in
        let (_, s₁) = then-eq-ok (ignore (save w o')) tail h e in
        absurd (then-fail _ x (ignore (save w o') h).1 (ap (λ x. x.0) (sym s₁) ∙ e))

    claim_with-owned :
        (o : ClusterOwner) (owned valid : Bool) (h : Host) (c : Claim)
        → (claim_with w cfg o owned valid h).0 ≡ ok c
        → c.0 ≡ owned
    claim_with-owned o owned true h c e =
        let (_, same) = then-eq-ok (ignore (publish w cfg _)) (pure (owned, true)) h e in
        sym (ap (λ x. x.0) (ok-injective (ap (λ x. x.0) (sym same) ∙ e)))
    claim_with-owned o owned false h c e = sym (ap (λ x. x.0) (ok-injective e))

    claim_stopping-owned :
        (o : ClusterOwner) (h : Host) (c : Claim) (r : SharedComputeReceipt)
        → (claim_stopping w cfg o h).0 ≡ ok c
        → is_shared cfg ≡ true
        → read_shared_compute cfg.shared_state_dir h.shared ≡ ok r
        → c.0 ≡ (r.owner == "GLM")
    unfolding claim_stopping read_shared ◌>>=◌
    claim_stopping-owned o h c r e t found =
        claim_with-owned o (r.owner == "GLM") _ h c (rw (found, claim_found) at (rw t at e))

    found_owner-ok :
        (file : Stored ClusterOwner) (o : ClusterOwner) → found_owner file ≡ ok o → file ≡ holding o
    found_owner-ok missing o e = cc
    found_owner-ok (unreadable x) o e = cc
    found_owner-ok (holding o') o e = ap holding (ok-injective e)

    record Parts (h : Host) : Type 0 where
      owner : ClusterOwner
      claim : Claim
      recorded : h.owner ≡ holding owner
      claimed : (claim_stopping w cfg owner h).0 ≡ ok claim
      settled : Settled owner claim.0 (stop w cfg h).1

    stop-Parts : (h : Host) → (stop w cfg h).0 ≡ ok tt → Parts h
    unfolding stop read_owner
    stop-Parts h e =
        let after_claim = λ (o : ClusterOwner) (c : Claim).
          attempt (stop_units w o.units false) >>= after_stop w cfg o c in
        let (o, found, s₀) =
          bind-eq-ok (read_owner w) (λ o. claim_stopping w cfg o >>= after_claim o) h e in
        let e₀ = ap (λ x. x.0) (sym s₀) ∙ e in
        let (c, claimed, s₁) = bind-eq-ok (claim_stopping w cfg o) (after_claim o) h e₀ in
        let h₁ = (claim_stopping w cfg o h).1 in
        let e₁ = ap (λ x. x.0) (sym s₁) ∙ e₀ in
        let (r, _, s₂) =
          bind-eq-ok (attempt (stop_units w o.units false)) (after_stop w cfg o c) h₁ e₁ in
        let h₂ = (stop_units w o.units false h₁).1 in
        record {
          owner = o;
          claim = c;
          recorded = found_owner-ok h.owner o found;
          claimed = claimed;
          settled =
              subst (Settled o c.0) (sym (ap (λ x. x.1) (s₀ ∙ s₁ ∙ s₂)))
                (after_stop-Settled o c r h₂ (ap (λ x. x.0) (sym s₂) ∙ e₁));
        }

    -- Where `stop` succeeds there was a recorded owner, the owner file now holds it in the state
    -- "stopped" with its error cleared, and no poison marker is left.
    pub stop-recorded :
        (h : Host)
        → (stop w cfg h).0 ≡ ok tt
        → (o : ClusterOwner) × (time : String) × (h.owner ≡ holding o)
          × ((stop w cfg h).1.owner
              ≡ holding (record o { state = "stopped"; error = ""; updated = time }))
          × ((stop w cfg h).1.poison ≡ false)
    stop-recorded h e =
        let p = stop-Parts h e in
        (p.owner, p.settled.time, p.recorded, p.settled.owner, p.settled.poison)

    -- Where `stop` succeeds and the shared receipt, as it was before, could be read and was the
    -- model's own, the receipt now admits a start.
    pub stop-Admits :
        (h : Host) (r : SharedComputeReceipt)
        → (stop w cfg h).0 ≡ ok tt
        → is_shared cfg ≡ true
        → read_shared_compute cfg.shared_state_dir h.shared ≡ ok r
        → r.owner ≡ "GLM"
        → Admits (stop w cfg h).1.shared
    stop-Admits h r e t found glm =
        let p = stop-Parts h e in
        p.settled.free
          (rw (t, claim_stopping-owned p.owner h p.claim r p.claimed t found) ((eq_iff _ _).1 glm))
