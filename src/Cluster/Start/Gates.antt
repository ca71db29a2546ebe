-- ===== src/Cluster/Start/Gates.antt =====
-- When `start` refuses before it has done anything.
use strix_halo_cluster_glm.Base.{
  String, ◌≡◌, refl, sym, ap, ◌∙◌, subst, ◌⊎◌, inl, inr, arith, Bool, true, false, Result, ok, err,
  ◌==◌, eq_iff, refuse->>-eq-ok,
}
use strix_halo_cluster_glm.Cluster.Owner.{ClusterOwner, ClusterConfig}
use strix_halo_cluster_glm.Cluster.Lease.{
  SharedComputeReceipt, Stored, missing, unreadable, holding, read_shared_compute,
  shared_start_allowed, found_receipt, decoded_receipt,
}
use strix_halo_cluster_glm.Cluster.Host.{
  World, Host, M, continue, when, lift, refuse_if, read_shared, stored_owner, poisoned, ◌>>=◌, ◌>>◌,
}
use strix_halo_cluster_glm.Cluster.Stop.{is_shared}
use strix_halo_cluster_glm.Cluster.Stop.Release.{Admits}
use strix_halo_cluster_glm.Cluster.Verify.{verify, preflight}
use strix_halo_cluster_glm.Cluster.Start.{
  gate_owner, gate_receipt, gate_shared, start_checks, start, none_active, exclusive_units,
}

-- The recorded owner leaves the pair to a new start.
abbrev pub IsFree : Stored ClusterOwner → Type 0
IsFree missing = Unit
IsFree (unreadable e) = ⊥
IsFree (holding o) = o.state ≡ "stopped"

-- The computation fails and leaves the host as it was, history included.
abbrev pub Refuses : {A : Type 0} → M A → Host → Type 0
Refuses m h = (e : String) × (m h ≡ (err e, h))

then-Refuses :
    {B : Type 0} (m : M (Unit {0})) (k : M B) (h : Host) → Refuses m h → Refuses (m >> k) h
unfolding ◌>>◌ ◌>>=◌
then-Refuses m k h (e, same) = (e, ap (λ x. continue x.0 (λ _. k) x.1) same)

-- A computation that passes and leaves the host as it was.
then-passes :
    {B : Type 0} (m : M (Unit {0})) (k : M B) (h : Host)
    → m h ≡ (ok tt, h)
    → Refuses k h
    → Refuses (m >> k) h
unfolding ◌>>◌ ◌>>=◌
then-passes m k h same (e, r) = (e, ap (λ x. continue x.0 (λ _. k) x.1) same ∙ r)

found_receipt-holding :
    (file : Stored SharedComputeReceipt) (r : SharedComputeReceipt)
    → found_receipt file ≡ ok r
    → file ≡ holding r
unfolding decoded_receipt
found_receipt-holding missing r h = cc
found_receipt-holding (unreadable e) r h = cc
found_receipt-holding (holding s) r h = ap holding (ground arith)

unit_or_err : (r : Result (Unit {0})) → (r ≡ ok tt) ⊎ (e : String) × (r ≡ err e)
unit_or_err (ok _) = inl refl
unit_or_err (err e) = inr (e, refl)

gate_receipt-cases :
    (r : Result SharedComputeReceipt) (h : Host)
    → (gate_receipt r h ≡ (ok tt, h)) ⊎ Refuses (gate_receipt r) h
gate_receipt-cases (err e) h = inr (_, refl)
gate_receipt-cases (ok r) h = elim (unit_or_err (shared_start_allowed r)) [
  | inl e ↦ inl (ap (λ x. (x, h)) e)
  | inr e ↦ inr (e.0, ap (λ x. (x, h)) e.1)
]

-- What the receipt file holds where reading it gives a receipt.
read-holding :
    (dir : String) (file : Stored SharedComputeReceipt) (r : SharedComputeReceipt)
    → read_shared_compute dir file ≡ ok r
    → file ≡ holding r
unfolding read_shared_compute
read-holding dir file r h =
    found_receipt-holding file r
      (refuse->>-eq-ok (dir == "") "shared compute state is not configured" (found_receipt file)
        h).1

gate_receipt-Refuses :
    (dir : String) (file : Stored SharedComputeReceipt) (h : Host)
    → ¬ Admits file
    → (r : Result SharedComputeReceipt) → read_shared_compute dir file ≡ r
    → Refuses (gate_receipt r) h
gate_receipt-Refuses dir file h shut (err e) same = (_, refl)
gate_receipt-Refuses dir file h shut (ok r) same = elim (unit_or_err (shared_start_allowed r)) [
  | inl e ↦ absurd (shut (subst Admits (sym (read-holding dir file r same)) e))
  | inr e ↦ (e.0, ap (λ x. (x, h)) e.1)
]

gate_owner-Refuses :
    (file : Stored ClusterOwner) → ¬ IsFree file → (e : String) × (gate_owner file ≡ err e)
gate_owner-Refuses missing held = absurd (held tt)
gate_owner-Refuses (unreadable e) held = (e, refl)
gate_owner-Refuses (holding o) held = (
  "previous owned pair must be explicitly stopped",
  ground (arith, eq_iff o.state "stopped", held),
)

module _ (w : World) (cfg : ClusterConfig) where
  gate-cases :
      (b : Bool) (h : Host)
      → (when b (gate_shared w cfg) h ≡ (ok tt, h)) ⊎ Refuses (when b (gate_shared w cfg)) h
  unfolding gate_shared read_shared ◌>>=◌
  gate-cases true h = gate_receipt-cases (read_shared_compute cfg.shared_state_dir h.shared) h
  gate-cases false h = inl refl

  gate-Refuses :
      (b : Bool) (h : Host) → b ≡ true → ¬ Admits h.shared → Refuses (when b (gate_shared w cfg)) h
  unfolding gate_shared read_shared ◌>>=◌
  gate-Refuses true h t shut = gate_receipt-Refuses cfg.shared_state_dir h.shared h shut _ refl
  gate-Refuses false h t shut = cc

  -- A gate and what follows it: the gate refuses, or what follows does.
  after_gate :
      {B : Type 0} (k : M B) (h : Host)
      → Refuses k h
      → Refuses (when (is_shared cfg) (gate_shared w cfg) >> k) h
  after_gate k h r = elim (gate-cases (is_shared cfg) h) [
    | inl e ↦ then-passes _ k h e r
    | inr e ↦ then-Refuses _ k h e
  ]

  -- What keeps a start from reaching its first command.
  abbrev pub IsClosed : Host → Type 0
  IsClosed h =
      ((is_shared cfg ≡ true) × (¬ Admits h.shared)) ⊎ (¬ IsFree h.owner) ⊎ (h.poison ≡ true)

  -- The checks behind the shared receipt, and those behind the owner file.
  abbrev behind_poison : M (Unit {0})
  behind_poison = none_active w exclusive_units >> (verify w cfg >> preflight w cfg)

  abbrev behind_owner : Bool → M (Unit {0})
  behind_owner marker =
      refuse_if marker "poison marker requires whole-pair stop before start" >> behind_poison

  poison-Refuses : (b : Bool) (h : Host) → b ≡ true → Refuses (behind_owner b) h
  unfolding ◌>>◌ ◌>>=◌
  poison-Refuses true h e = (_, refl)
  poison-Refuses false h e = cc

  abbrev behind_shared : M (Unit {0})
  behind_shared = stored_owner w >>= λ file. lift (gate_owner file) >> (poisoned w >>= behind_owner)

  owner-Refuses : (h : Host) → (¬ IsFree h.owner) ⊎ (h.poison ≡ true) → Refuses behind_shared h
  unfolding stored_owner poisoned ◌>>=◌ ◌>>◌
  owner-Refuses h (inl held) =
      let (e, same) = gate_owner-Refuses h.owner held in
      (e, ap (λ r. continue r (λ _. poisoned w >>= behind_owner) h) same)
  owner-Refuses h (inr marked) = elim (unit_or_err (gate_owner h.owner)) [
    | inl e ↦
        let (x, same) = poison-Refuses h.poison h marked in
        (x, ap (λ r. continue r (λ _. poisoned w >>= behind_owner) h) e ∙ same)
    | inr e ↦ (e.0, ap (λ r. continue r (λ _. poisoned w >>= behind_owner) h) e.1)
  ]

  start_checks-Refuses : (h : Host) → IsClosed h → Refuses (start_checks w cfg) h
  unfolding start_checks
  start_checks-Refuses h (inl c) = then-Refuses _ behind_shared h (gate-Refuses _ h c.0 c.1)
  start_checks-Refuses h (inr c) = after_gate behind_shared h (owner-Refuses h c)

  -- Where the shared receipt is not reconciled OFF, the recorded owner is not stopped or cannot be
  -- read, or a poison marker is present, `start` fails and has done nothing: no command was issued,
  -- no file was written.
  pub start-Refuses : (h : Host) → IsClosed h → Refuses (start w cfg) h
  unfolding start
  start-Refuses h c = then-Refuses (start_checks w cfg) _ h (start_checks-Refuses h c)
