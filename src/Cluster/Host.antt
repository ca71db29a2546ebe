-- ===== src/Cluster/Host.antt =====
-- The outside of controller.go. The files that the controller owns are state; what systemd, ssh, the
-- clock, the file locks and the random source answer is a function of all that was done before, so
-- a theorem about every `World` holds for every behaviour of theirs.
use strix_halo_cluster_glm.Base.{
  String, List, [], ◌∷◌, Bool, true, false, Result, ok, err, ℕ, not, ◌&&◌, if◌then◌else◌,
}
use strix_halo_cluster_glm.Base.Integer.{ℤ, pos, int_eq}
use strix_halo_cluster_glm.Cluster.Owner.{ClusterOwner, ClusterConfig}
use strix_halo_cluster_glm.Cluster.Lease.{
  SharedComputeReceipt, Stored, missing, unreadable, holding, read_shared_compute, checked_receipt,
}

pub data Action : Type 0 where
  ran : ℤ → List String → Action
  saved : ClusterOwner → Action
  published : SharedComputeReceipt → Action
  archived : Action
  locked unlocked : String → Action
  probed : String → Action

-- controllerBytes writes beside the file, renames, and syncs the directory: an error can come
-- before the rename or after it.
pub data WriteOutcome : Type 0 where
  committed : WriteOutcome
  refused unsynced : String → WriteOutcome

-- The runtime manifest as it is decoded. A weight belongs to both ranks, to the rank that its
-- JSON number truncates to, or, where the value is something else, to none.
pub data WeightRank : Type 0 where
  shared other : WeightRank
  numbered : ℤ → WeightRank

pub record Weight : Type 0 where
  pub rank : WeightRank
  pub path : String
  pub size : ℤ

pub record Manifest : Type 0 where
  pub identity : List (String × List (String × String))
  pub weights : List Weight

pub record World : Type 0 where
  pub run : List Action → ℤ → List String → Result String
  pub write : List Action → Action → WriteOutcome
  pub try_lock : List Action → String → Result (Unit {0})
  pub healthy : List Action → String → Bool
  pub now : List Action → String
  pub epoch : List Action → String
  pub nonce : List Action → String
  pub manifest : List Action → Result Manifest
  -- how many rounds of `waitHealth` can follow the first one before its context is done
  pub rounds : List Action → ℕ
  -- the order in which the goroutines of one call take their next steps
  pub schedule : List Action → List ℕ

-- `history` has the latest action first. `poison` is whether pair-poison.json exists.
pub record Host : Type 0 where
  pub history : List Action
  pub owner : Stored ClusterOwner
  pub shared : Stored SharedComputeReceipt
  pub poison : Bool

abbrev pub M : Type 0 → Type 0
M A = Host → Result A × Host

abbrev pub pure : {A : Type 0} → A → M A
pure a h = (ok a, h)

abbrev pub fail : {A : Type 0} → String → M A
fail e h = (err e, h)

abbrev pub lift : {A : Type 0} → Result A → M A
lift r h = (r, h)

-- The error of a call as a value, for code that goes on after it.
abbrev pub attempt : {A : Type 0} → M A → M (Result A)
attempt m h = let (r, h') = m h in (ok r, h')

abbrev pub continue : {A B : Type 0} → Result A → (A → M B) → M B
continue (ok a) f h = f a h
continue (err e) f h = (err e, h)

infixl 5 ◌>>=◌ ◌>>◌
unfoldable pub ◌>>=◌ : {A B : Type 0} → M A → (A → M B) → M B
◌>>=◌ first rest h = let (r, h') = first h in continue r rest h'

unfoldable pub ◌>>◌ : {B : Type 0} → M (Unit {0}) → M B → M B
unfolding ◌>>=◌
first >> rest = first >>= λ _. rest

abbrev pub refuse_if : Bool → String → M (Unit {0})
refuse_if true e h = (err e, h)
refuse_if false e h = (ok tt, h)

-- `_ = call()`
abbrev pub ignore : {A : Type 0} → M A → M (Unit {0})
ignore m h = let (r, h') = m h in (ok tt, h')

abbrev pub when : Bool → M (Unit {0}) → M (Unit {0})
when true m = m
when false m = pure tt

-- `_, e = call()`
abbrev pub discard : {A : Type 0} → M A → M (Unit {0})
discard m = m >>= λ _. pure tt

abbrev pub record_action : Action → Host → Host
record_action a h = record h { history = a ∷ h.history }

-- What a write returns and what the file holds behind it.
abbrev pub written : {A : Type 0} → WriteOutcome → A → Stored A → Result (Unit {0}) × Stored A
written committed new old = (ok tt, holding new)
written (refused e) new old = (err e, old)
written (unsynced e) new old = (err e, holding new)

abbrev pub archive_outcome : WriteOutcome → Bool → Result (Unit {0}) × Bool
archive_outcome committed old = (ok tt, false)
archive_outcome (refused e) old = (err e, old)
archive_outcome (unsynced e) old = (err e, false)

abbrev pub found_owner : Stored ClusterOwner → Result ClusterOwner
found_owner missing = err "no such file or directory"
found_owner (unreadable e) = err e
found_owner (holding o) = ok o

-- The rename of an existing marker.
abbrev pub archive_present : World → Host → Bool → Result (Unit {0}) × Host
archive_present w h false = (ok tt, h)
archive_present w h true =
    let (e, left) = archive_outcome (w.write h.history archived) true in
    (e, record h { history = archived ∷ h.history; poison = left })

module _ (w : World) where
  -- (*ClusterController).command, its argument checks included. `run` is the process, by ssh for rank 1,
  -- with its output and its error.
  unfoldable pub command : ℤ → List String → M String
  command rank [] h = (
    if not (int_eq rank (pos 0)) && not (int_eq rank (pos 1))
        then err "invalid rank"
        else err "empty command",
    h,
  )
  command rank (name ∷ args) h =
      if not (int_eq rank (pos 0)) && not (int_eq rank (pos 1))
      then (err "invalid rank", h)
      else (w.run h.history rank (name ∷ args), record_action (ran rank (name ∷ args)) h)

  -- (*ClusterController).save: the owner as it was stamped comes back with the error.
  unfoldable pub save : ClusterOwner → M (Unit {0})
  save o h =
      let stamped = record o { updated = w.now h.history } in
      let (r, file) = written (w.write h.history (saved stamped)) stamped h.owner in
      (r, record h { history = saved stamped ∷ h.history; owner = file })

  unfoldable pub write_receipt : SharedComputeReceipt → M (Unit {0})
  write_receipt r h =
      let (e, file) = written (w.write h.history (published r)) r h.shared in
      (e, record h { history = published r ∷ h.history; shared = file })

  -- writeSharedCompute, but for the JSON text: the file holds the record.
  unfoldable pub publish : ClusterConfig → SharedComputeReceipt → M (Unit {0})
  unfolding write_receipt
  publish cfg r h =
      continue (checked_receipt (w.now h.history) cfg.shared_state_dir r) write_receipt h

  unfoldable pub read_shared : ClusterConfig → M SharedComputeReceipt
  read_shared cfg h = (read_shared_compute cfg.shared_state_dir h.shared, h)

  -- readOwner
  unfoldable pub read_owner : M ClusterOwner
  read_owner h = (found_owner h.owner, h)

  unfoldable pub stored_owner : M (Stored ClusterOwner)
  stored_owner h = (ok h.owner, h)

  -- archivePoison
  unfoldable pub archive_poison : M (Unit {0})
  archive_poison h = archive_present w h h.poison

  -- withControllerLock: the deferred unlock runs on every path behind the lock.
  unfoldable pub with_lock : {A : Type 0} → String → M A → M A
  with_lock path m h =
      let (r, h') = m (record_action (locked path) h) in
      continue (w.try_lock h.history path) (λ _ _. (r, record_action (unlocked path) h')) h

  unfoldable pub fresh_nonce : M String
  fresh_nonce h = (ok (w.nonce h.history), h)

  unfoldable pub fresh_epoch : M String
  fresh_epoch h = (ok (w.epoch h.history), h)

  -- os.ReadFile(c.Config.Manifest) and json.Unmarshal
  unfoldable pub read_manifest : M Manifest
  read_manifest h = (w.manifest h.history, h)

  unfoldable pub poisoned : M Bool
  poisoned h = (ok h.poison, h)

  unfoldable pub health_rounds : M ℕ
  health_rounds h = (ok (w.rounds h.history), h)

  unfoldable pub controller_health : String → M Bool
  controller_health url h = (ok (w.healthy h.history url), record_action (probed url) h)
