-- ===== src/Lifecycle/Presence/Known.antt =====
-- A unit whose presence is known and not active is proven off.
use strix_halo_cluster_glm.Base.{
  String, ◌≡◌, refl, sym, ap, ◌∙◌, subst, ◌⊎◌, inl, inr, arith, Bool, true, false, Option, none,
  some, Result, ok, err, ◌==◌, ◌||◌, eq_iff, if◌then◌else◌, ok-injective, trim_space,
}
use strix_halo_cluster_glm.Base.Integer.{ℤ}
use strix_halo_cluster_glm.Cluster.Host.{World, Host, attempt, command}
use strix_halo_cluster_glm.Cluster.Trace.{bind-eq-ok}
use strix_halo_cluster_glm.Cluster.Units.{Fields}
use strix_halo_cluster_glm.Lifecycle.Presence.{
  Presence, presence_args, presence_of, shows_active, shows_off, unit_presence, shown_presence,
  if_complete, read_cgroup, with_cgroup, missing_key, required_keys, parse_systemd_show,
}
use strix_halo_cluster_glm.Lifecycle.Presence.Stopped.{IsDown, unit_presence-IsDown}
use strix_halo_cluster_glm.Lifecycle.Survey.{has_error}

-- The three answers about a unit; only one that is not known bears an error.
abbrev IsState : Presence → Type 0
IsState p = (p.state ≡ "ACTIVE") ⊎ (p.state ≡ "OFF_VERIFIED") ⊎ (p.state ≡ "UNKNOWN")

-- What is known of a unit that is neither unknown nor active.
abbrev pub IsClear : Presence → Type 0
IsClear p = ((has_error p.error || p.state == "UNKNOWN") ≡ false) × ((p.state == "ACTIVE") ≡ false)

module _ (w : World) (rank : ℤ) (unit : String) where
  IsState-if :
      (active off : Bool) (x y z : Presence)
      → IsState x
      → IsState y
      → IsState z
      → IsState (if active then x else if off then y else z)
  IsState-if true off x y z p q r = p
  IsState-if false true x y z p q r = q
  IsState-if false false x y z p q r = r

  presence_of-IsState : (v : Fields) (pids : String) → IsState (presence_of unit v pids)
  unfolding presence_of
  presence_of-IsState v pids =
      IsState-if (shows_active v pids) (shows_off v pids) _ _ _ (inl refl) (inr (inl refl))
        (inr (inr refl))

  read-IsState :
      (v : Fields) (b : Bool) (h : Host) (p : Presence)
      → (read_cgroup w rank unit v b h).0 ≡ ok p
      → IsState p
  read-IsState v true h p e = subst IsState (ok-injective e) (presence_of-IsState v "")
  read-IsState v false h p e =
      let (r, _, s) = bind-eq-ok (attempt (command w rank _)) (with_cgroup unit v) h e in
      on_pids r _ (ap (λ z. z.0) (sym s) ∙ e)
    where
      on_pids : (r : Result String) (h : Host) → (with_cgroup unit v r h).0 ≡ ok p → IsState p
      on_pids (ok out) h e = subst IsState (ok-injective e) (presence_of-IsState v (trim_space out))
      on_pids (err x) h e = inr (inr (ap (λ z. z.state) (sym (ok-injective e))))

  shown-IsState :
      (r : Result String) (h : Host) (p : Presence)
      → (shown_presence w rank unit r h).0 ≡ ok p
      → IsState p
  shown-IsState (err x) h p e = inr (inr (ap (λ z. z.state) (sym (ok-injective e))))
  shown-IsState (ok b) h p e = on_missing (missing_key required_keys (parse_systemd_show b)) e
    where
      on_missing :
          (k : Option String)
          → (if_complete w rank unit (parse_systemd_show b) k h).0 ≡ ok p
          → IsState p
      on_missing (some k) e = inr (inr (ap (λ z. z.state) (sym (ok-injective e))))
      on_missing none e = read-IsState (parse_systemd_show b) _ h p e

  unit_presence-IsState :
      (h : Host) (p : Presence) → (unit_presence w rank unit h).0 ≡ ok p → IsState p
  unfolding unit_presence
  unit_presence-IsState h p e =
      let (r, _, s) =
        bind-eq-ok (attempt (command w rank (presence_args unit))) (shown_presence w rank unit) h
          e in
      shown-IsState r _ p (ap (λ z. z.0) (sym s) ∙ e)

  pub clear-IsDown :
      (h : Host) (p : Presence)
      → (unit_presence w rank unit h).0 ≡ ok p
      → IsClear p
      → IsDown w rank unit h p
  clear-IsDown h p e (known, inactive) = elim (unit_presence-IsState h p e) [
    | inl a ↦ absurd (ground (arith, a, inactive, eq_iff p.state "ACTIVE"))
    | inr (inl o) ↦ unit_presence-IsDown w rank unit h p e o
    | inr (inr u) ↦ absurd (ground (arith, u, known, eq_iff p.state "UNKNOWN"))
  ]
