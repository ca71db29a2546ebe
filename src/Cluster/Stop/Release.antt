-- ===== src/Cluster/Stop/Release.antt =====
-- `stop` never makes the shared receipt say OFF unless the pair is proven stopped.
use strix_halo_cluster_glm.Base.{
  String, ◌≡◌, refl, sym, ap, ◌∙◌, subst, ◌⊎◌, inl, inr, arith, Bool, true, false, Result, ok, err,
  All, ◌&&◌, eq_iff, ne_of_test, Result-cases,
}
use strix_halo_cluster_glm.Cluster.Owner.{ClusterOwner, ClusterConfig}
use strix_halo_cluster_glm.Cluster.Lease.{
  SharedComputeReceipt, Stored, missing, unreadable, holding, checked_receipt, shared_from_glm,
  shared_start_allowed,
}
use strix_halo_cluster_glm.Cluster.Lease.Files.{read-checked}
use strix_halo_cluster_glm.Cluster.Host.{
  World, Host, M, committed, refused, unsynced, published, written, continue, pure, save, publish,
  write_receipt, archive_poison, read_shared, read_owner, found_owner, ◌>>=◌, ◌>>◌, attempt, when,
  ignore, fail,
}
use strix_halo_cluster_glm.Cluster.Writes.{
  IsWrite, Follows, Follows-refl, Adds, then-Adds, when-Adds, save-Adds, publish-Adds,
  archive_poison-Adds,
}
use strix_halo_cluster_glm.Cluster.Stop.Proven.{
  IsQuery, SeenStopped, stop_units-Touches, stop_units-SeenStopped,
}
use strix_halo_cluster_glm.Cluster.Stop.{
  Claim, is_shared, claim_of, claim_with, claim_found, claim_if_shared, claim_stopping, stop_failed,
  release_shared, stop_proven, after_stop, stop_units, stop,
}

-- The stored receipt lets a start through.
abbrev pub Admits : Stored SharedComputeReceipt → Type 0
Admits missing = ⊥
Admits (unreadable e) = ⊥
Admits (holding r) = shared_start_allowed r ≡ ok tt

-- A computation behind which the receipt admits a start only if it did before.
abbrev pub Keeps : {A : Type 0} → M A → Type 0
Keeps m = (h : Host) → Admits (m h).1.shared → Admits h.shared

module _ {A B : Type 0} where
  continue-Keeps :
      (r : Result A) (f : A → M B) (h : Host)
      → ((a : A) → Keeps (f a))
      → Admits (continue r f h).1.shared
      → Admits h.shared
  continue-Keeps (ok a) f h k x = k a h x
  continue-Keeps (err e) f h k x = x

  pub bind-Keeps : (m : M A) (f : A → M B) → Keeps m → ((a : A) → Keeps (f a)) → Keeps (m >>= f)
  unfolding ◌>>=◌
  bind-Keeps m f keep k h x = keep h (continue-Keeps (m h).0 f (m h).1 k x)

pub then-Keeps : {B : Type 0} (m : M (Unit {0})) (k : M B) → Keeps m → Keeps k → Keeps (m >> k)
unfolding ◌>>◌
then-Keeps m k x y = bind-Keeps m (λ _. k) x (λ _. y)

pub when-Keeps : (b : Bool) (m : M (Unit {0})) → Keeps m → Keeps (when b m)
when-Keeps true m k h x = k h x
when-Keeps false m k h x = x

owner_when_allowed : (r : SharedComputeReceipt) → shared_start_allowed r ≡ ok tt → r.owner ≡ "NONE"
unfolding shared_start_allowed
owner_when_allowed r h = ground (arith, eq_iff r.owner "NONE")

module _ (w : World) (cfg : ClusterConfig) where
  -- Where the receipt file stands after a publication: as it was, or at the checked receipt.
  publish-cases :
      (P : Stored SharedComputeReceipt → Type 0) (r : SharedComputeReceipt) (h : Host)
      → P h.shared
      → ((stored : SharedComputeReceipt)
          → checked_receipt (w.now h.history) cfg.shared_state_dir r ≡ ok stored
          → P (holding stored))
      → P (publish w cfg r h).1.shared
  unfolding publish
  publish-cases P r h old new =
      elim (Result-cases (checked_receipt (w.now h.history) cfg.shared_state_dir r)) [
        | inl (stored, e) ↦ rw e (outcome stored (new stored e))
        | inr (x, e) ↦ rw e old
      ]
    where
      outcome :
          (stored : SharedComputeReceipt)
          → P (holding stored)
          → P (write_receipt w stored h).1.shared
      outcome stored p =
          elim (w.write h.history (published stored)) as (λ x. P (written x stored h.shared).1) [
            | committed ↦ p
            | refused e ↦ old
            | unsynced e ↦ p
          ]

  pub publish_glm-Admits :
      (state detail : String) (o : ClusterOwner) (h : Host)
      → Admits (publish w cfg (shared_from_glm state o detail) h).1.shared
      → Admits h.shared
  unfolding shared_from_glm
  publish_glm-Admits state detail o h =
      publish-cases (λ x. Admits x → Admits h.shared) (shared_from_glm state o detail) h (λ a. a)
        (λ stored e a. absurd (
          ne_of_test "GLM" "NONE" refl (
            ap (λ r. r.owner) (sym (read-checked _ _ (shared_from_glm state o detail) stored e).1)
            ∙ owner_when_allowed stored a)))

  pub save-Keeps : (o : ClusterOwner) → Keeps (save w o)
  unfolding save
  save-Keeps o h a = a

  claim_with-Keeps :
      (o : ClusterOwner) (owned valid : Bool) → Keeps (claim_with w cfg o owned valid)
  claim_with-Keeps o owned true =
      then-Keeps _ (pure (owned, true)) (publish_glm-Admits "STOPPING" _ o) (λ h x. x)
  claim_with-Keeps o owned false = λ h x. x

  claim_found-Keeps :
      (o : ClusterOwner) (r : Result SharedComputeReceipt) → Keeps (claim_found w cfg o r)
  unfolding claim_of
  claim_found-Keeps o (ok r) = claim_with-Keeps o _ _
  claim_found-Keeps o (err e) = λ h x. x

  claim_if_shared-Keeps : (o : ClusterOwner) (b : Bool) → Keeps (claim_if_shared w cfg o b)
  unfolding read_shared
  claim_if_shared-Keeps o true =
      bind-Keeps (attempt (read_shared w cfg)) (claim_found w cfg o) (λ h x. x)
        (claim_found-Keeps o)
  claim_if_shared-Keeps o false = λ h x. x

  stop_failed-Keeps :
      (o : ClusterOwner) (owned : Bool) (e : String) → Keeps (stop_failed w cfg o owned e)
  unfolding stop_failed
  stop_failed-Keeps o owned e =
      let o' = record o { state = "cleanup_uncertain"; error = e } in
      then-Keeps (ignore (save w o')) _ (save-Keeps o') (
        then-Keeps (when (is_shared cfg && owned) _) (fail e)
          (when-Keeps (is_shared cfg && owned) _ (publish_glm-Admits "UNRECONCILED" _ o'))
          (λ h x. x))

-- The units of the owner were proven stopped, and only writes of the controller's files followed.
pub record Stopped (w : World) (h final : Host) : Type 0 where
  pub owner : ClusterOwner
  pub recorded : h.owner ≡ holding owner
  pub behind : Host
  pub seen : All (SeenStopped (IsQuery owner.units) w behind) owner.units
  pub since : Follows IsWrite behind final

module _ (w : World) (cfg : ClusterConfig) where
  release_shared-Adds : (o : ClusterOwner) (b : Bool) → Adds IsWrite (release_shared w cfg o b)
  unfolding release_shared
  release_shared-Adds o true = publish-Adds w cfg _
  release_shared-Adds o false = then-Adds _ (fail _) (publish-Adds w cfg _) Follows-refl

  stop_proven-Adds : (o : ClusterOwner) (c : Claim) → Adds IsWrite (stop_proven w cfg o c)
  unfolding stop_proven
  stop_proven-Adds o (owned, valid) =
      let o' = record o { state = "stopped"; error = "" } in
      then-Adds (save w o') _ (save-Adds w o') (
        then-Adds (when (is_shared cfg && owned) _) (archive_poison w)
          (when-Adds (is_shared cfg && owned) _ (release_shared-Adds o' valid))
          (archive_poison-Adds w))

  -- `stop` behind the claim.
  rest_of_stop : ClusterOwner → Claim → M (Unit {0})
  rest_of_stop o c = attempt (stop_units w o.units false) >>= after_stop w cfg o c

  rest_of_stop-Stopped :
      (o : ClusterOwner) (c : Claim) (h : Host)
      → Admits (rest_of_stop o c h).1.shared
      → Admits h.shared
        ⊎ (behind : Host) × All (SeenStopped (IsQuery o.units) w behind) o.units
          × Follows IsWrite behind (rest_of_stop o c h).1
  unfolding rest_of_stop ◌>>=◌
  rest_of_stop-Stopped o c h a = go (stop_units w o.units false h).0 refl a
    where
      h₁ : Host
      h₁ = (stop_units w o.units false h).1

      go :
          (r : Result (Unit {0}))
          → r ≡ (stop_units w o.units false h).0
          → Admits (after_stop w cfg o c r h₁).1.shared
          → Admits h.shared
            ⊎ (behind : Host) × All (SeenStopped (IsQuery o.units) w behind) o.units
              × Follows IsWrite behind (after_stop w cfg o c r h₁).1
      go (ok _) e a =
          inr (h₁, stop_units-SeenStopped w o.units false h (sym e), stop_proven-Adds o c h₁)
      go (err x) e a = inl (
          subst Admits (stop_units-Touches w o.units false h).shared
            (stop_failed-Keeps w cfg o c.0 x h₁ a))

  -- The two cases of a receipt that admits a start behind a part of `stop`.
  abbrev Outcome : ClusterOwner → Host → Host → Type 0
  Outcome o h final =
      Admits h.shared
      ⊎ (behind : Host) × All (SeenStopped (IsQuery o.units) w behind) o.units
        × Follows IsWrite behind final

  claimed-Stopped :
      (o : ClusterOwner) (h₀ : Host) (r : Result Claim) (h : Host)
      → (Admits h.shared → Admits h₀.shared)
      → Admits (continue r (rest_of_stop o) h).1.shared
      → Outcome o h₀ (continue r (rest_of_stop o) h).1
  claimed-Stopped o h₀ (err e) h keep a = inl (keep a)
  claimed-Stopped o h₀ (ok c) h keep a = elim (rest_of_stop-Stopped o c h a) [
    | inl x ↦ inl (keep x)
    | inr x ↦ inr x
  ]

  owned-Stopped :
      (file : Stored ClusterOwner) (h : Host)
      → h.owner ≡ file
      → Admits
          (continue (found_owner file) (λ o. claim_stopping w cfg o >>= rest_of_stop o) h).1.shared
      → Admits h.shared
        ⊎ Stopped w h
            (continue (found_owner file) (λ o. claim_stopping w cfg o >>= rest_of_stop o) h).1
  unfolding ◌>>=◌ claim_stopping
  owned-Stopped missing h e a = inl a
  owned-Stopped (unreadable x) h e a = inl a
  owned-Stopped (holding o) h e a =
      elim (claimed-Stopped o h (claim_stopping w cfg o h).0 (claim_stopping w cfg o h).1
        (claim_if_shared-Keeps w cfg o (is_shared cfg) h) a) [
          | inl x ↦ inl x
          | inr x ↦ inr (record { owner = o; recorded = e; behind = x.0; seen = x.1; since = x.2 })
        ]

  -- No false OFF: if the shared receipt admits a start behind `stop`, then it did before, or every
  -- unit of the recorded owner answered that it is not active, with nothing but queries of these
  -- units between that answer and the end of the stopping, and only file writes behind that.
  pub stop-Stopped :
      (h : Host) → Admits (stop w cfg h).1.shared → Admits h.shared ⊎ Stopped w h (stop w cfg h).1
  unfolding stop read_owner rest_of_stop ◌>>=◌
  stop-Stopped h a = owned-Stopped h.owner h refl a
