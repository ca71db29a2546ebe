-- ===== src/Cluster/Writes.antt =====
-- What the controller's own file writes add to the history.
use strix_halo_cluster_glm.Base.{
  List, [], ◌∷◌, ◌++◌, ◌≡◌, refl, sym, ap, ◌∙◌, Bool, true, false, Result, ok, err, All, All-append,
  append_assoc,
}
use strix_halo_cluster_glm.Cluster.Owner.{ClusterOwner, ClusterConfig}
use strix_halo_cluster_glm.Cluster.Lease.{SharedComputeReceipt, checked_receipt}
use strix_halo_cluster_glm.Cluster.Host.{
  World, Host, Action, ran, saved, published, archived, locked, unlocked, probed, M, continue, when,
  save, publish, write_receipt, archive_poison, archive_present, ◌>>=◌, ◌>>◌,
}
use strix_halo_cluster_glm.Cluster.Trace.{Extends}

-- A write of the controller's: nothing that reaches a unit.
abbrev pub IsWrite : Action → Type 0
IsWrite (saved o) = Unit
IsWrite (published r) = Unit
IsWrite archived = Unit
IsWrite (ran rank args) = ⊥
IsWrite (locked p) = ⊥
IsWrite (unlocked p) = ⊥
IsWrite (probed u) = ⊥

-- `h'` comes behind `h` by actions that all satisfy `P`; the files may differ.
pub record Follows (P : Action → Type 0) (h h' : Host) : Type 0 where
  pub added : List Action
  pub history : h'.history ≡ added ++ h.history
  pub each : All P added

module _ {P : Action → Type 0} where
  pub Follows-refl : (h : Host) → Follows P h h
  Follows-refl h = record { added = []; history = refl; each = tt }

  pub Follows-trans : {a b c : Host} → Follows P a b → Follows P b c → Follows P a c
  Follows-trans f g = record {
    added = g.added ++ f.added;
    history = g.history ∙ ap (λ l. g.added ++ l) f.history ∙ sym (append_assoc g.added f.added _);
    each = All-append P g.added f.added g.each f.each;
  }

  pub Extends-Follows : {a b : Host} → Extends P a b → Follows P a b
  Extends-Follows e = record { added = e.added; history = e.history; each = e.each }

abbrev pub Adds : (Action → Type 0) → {A : Type 0} → M A → Type 0
Adds P m = (h : Host) → Follows P h (m h).1

module _ {P : Action → Type 0} {A B : Type 0} where
  continue-Adds :
      (r : Result A) (f : A → M B) (h : Host)
      → ((a : A) → Adds P (f a))
      → Follows P h (continue r f h).1
  continue-Adds (ok a) f h k = k a h
  continue-Adds (err e) f h k = Follows-refl h

  pub bind-Adds : (m : M A) (f : A → M B) → Adds P m → ((a : A) → Adds P (f a)) → Adds P (m >>= f)
  unfolding ◌>>=◌
  bind-Adds m f x k h = Follows-trans (x h) (continue-Adds (m h).0 f (m h).1 k)

pub then-Adds :
    {P : Action → Type 0} {B : Type 0} (m : M (Unit {0})) (k : M B)
    → Adds P m
    → Adds P k
    → Adds P (m >> k)
unfolding ◌>>◌
then-Adds m k x y = bind-Adds m (λ _. k) x (λ _. y)

pub when-Adds : {P : Action → Type 0} (b : Bool) (m : M (Unit {0})) → Adds P m → Adds P (when b m)
when-Adds true m x h = x h
when-Adds false m x h = Follows-refl h

module _ (w : World) where
  pub save-Adds : (o : ClusterOwner) → Adds IsWrite (save w o)
  unfolding save
  save-Adds o h = record { added = saved _ ∷ []; history = refl; each = (tt, tt) }

  pub publish-Adds :
      (cfg : ClusterConfig) (r : SharedComputeReceipt) → Adds IsWrite (publish w cfg r)
  unfolding publish
  publish-Adds cfg r h =
      continue-Adds (checked_receipt (w.now h.history) cfg.shared_state_dir r) (write_receipt w) h
        (λ stored h'. record { added = published stored ∷ []; history = refl; each = (tt, tt) })

  archive_present-Adds : (h : Host) (b : Bool) → Follows IsWrite h (archive_present w h b).1
  archive_present-Adds h true = record { added = archived ∷ []; history = refl; each = (tt, tt) }
  archive_present-Adds h false = Follows-refl h

  pub archive_poison-Adds : Adds IsWrite (archive_poison w)
  unfolding archive_poison
  archive_poison-Adds h = archive_present-Adds h h.poison
