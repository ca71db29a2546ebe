-- ===== src/Lifecycle/Presence/Stopped.antt =====
-- When a unit counts as proven off.
use strix_halo_cluster_glm.Base.{
  String, List, [], ◌∷◌, ◌≡◌, ◌≢◌, refl, sym, ap, ◌∙◌, subst, ◌⊎◌, inl, inr, arith, Bool, true,
  false, Option, none, some, Result, ok, err, ◌==◌, eq_iff, if◌then◌else◌, ok-injective, ne_of_test,
  trim_space, join_path, All, lookup,
}
use strix_halo_cluster_glm.Base.Integer.{ℤ}
use strix_halo_cluster_glm.Cluster.Host.{World, Host, attempt, command, ◌>>=◌}
use strix_halo_cluster_glm.Cluster.Trace.{bind-eq-ok}
use strix_halo_cluster_glm.Cluster.Units.{Fields, field}
use strix_halo_cluster_glm.Lifecycle.Presence.{
  Presence, presence_of, shows_active, shows_off, unit_presence, shown_presence, if_complete,
  read_cgroup, with_cgroup, missing_key, required_keys, parse_systemd_show,
}

-- The unit has no cgroup, or the file of its processes could be read and is blank.
abbrev pub IsVacant : World → ℤ → Fields → Host → Type 0
IsVacant w rank v h =
    (field "ControlGroup" v ≡ "")
    ⊎ ((pids : String) × ((command w rank
            ("cat"
              ∷ join_path (join_path "/sys/fs/cgroup" (field "ControlGroup" v)) "cgroup.procs"
              ∷ [])
            h).0
          ≡ ok pids)
        × (trim_space pids ≡ ""))

-- What the fields that systemctl showed, and the cgroup as it is read next, say of a unit that
-- counts as off.
pub record ShowsDown (w : World) (rank : ℤ) (v : Fields) (later : Host) (p : Presence)
    : Type 0 where
  pub fields : p.fields ≡ some v
  pub error : p.error ≡ none
  pub load_state : lookup "LoadState" v ≢ none
  pub active_state : lookup "ActiveState" v ≢ none
  pub main_pid : lookup "MainPID" v ≢ none
  pub control_group : lookup "ControlGroup" v ≢ none
  pub process : field "MainPID" v ≡ "0"
  pub active : (field "ActiveState" v ≡ "inactive") ⊎ (field "ActiveState" v ≡ "failed")
  pub vacant : IsVacant w rank v later

abbrev pub shown_args : String → List String
shown_args unit =
    "systemctl" ∷ "--user" ∷ "show" ∷ unit ∷ "-p" ∷ "LoadState" ∷ "-p" ∷ "ActiveState" ∷ "-p"
    ∷ "SubState" ∷ "-p" ∷ "MainPID" ∷ "-p" ∷ "InvocationID" ∷ "-p" ∷ "ControlGroup" ∷ "-p"
    ∷ "Environment" ∷ []

-- What systemctl answered about the unit on the rank, and what follows from the answer.
pub record IsDown (w : World) (rank : ℤ) (unit : String) (h : Host) (p : Presence) : Type 0 where
  pub answer : String
  pub asked : (command w rank (shown_args unit) h).0 ≡ ok answer
  pub shows : ShowsDown w rank (parse_systemd_show answer) (command w rank (shown_args unit) h).1 p

missing_key-none :
    (ks : List String) (v : Fields) → missing_key ks v ≡ none → All (λ k. lookup k v ≢ none) ks
unfolding missing_key
missing_key-none [] v h = tt
missing_key-none (k ∷ ks) v h = go (lookup k v) refl h (missing_key-none ks v)
  where
    Rest : Type 0
    Rest = All (λ k. lookup k v ≢ none) ks

    go :
        (x : Option String)
        → lookup k v ≡ x
        → elim x [ none ↦ some k | some y ↦ missing_key ks v ] ≡ none
        → (missing_key ks v ≡ none → Rest)
        → (lookup k v ≢ none) × Rest
    go none e h later = cc
    go (some y) e h later = (λ none'. cc, later h)

off_only : {x : String} → (x == "OFF_VERIFIED") ≡ false → x ≢ "OFF_VERIFIED"
off_only {x} = ne_of_test x "OFF_VERIFIED"

module _ (w : World) (rank : ℤ) (unit : String) (v : Fields) (later : Host) where
  abbrev P : Presence → Type 0
  P p = p.state ≡ "OFF_VERIFIED" → ShowsDown w rank v later p

  split :
      (active off : Bool) (x y z : Presence)
      → P x
      → (off ≡ true → P y)
      → P z
      → P (if active then x else if off then y else z)
  split true off x y z p q r = p
  split false true x y z p q r = q refl
  split false false x y z p q r = r

  presence_of-ShowsDown :
      (pids : String)
      → All (λ k. lookup k v ≢ none) required_keys
      → (pids ≡ "" → IsVacant w rank v later)
      → P (presence_of unit v pids)
  unfolding presence_of
  presence_of-ShowsDown pids complete vacant =
      split (shows_active v pids) (shows_off v pids) _ _ _ (λ off. absurd (off_only refl off))
        (λ down off. record {
          fields = refl;
          error = refl;
          load_state = complete.0;
          active_state = complete.1.0;
          main_pid = complete.1.1.0;
          control_group = complete.1.1.1.0;
          process = (eq_iff (field "MainPID" v) "0").0 (ground (arith, down));
          active = ground (
            arith,
            down,
            eq_iff (field "ActiveState" v) "inactive",
            eq_iff (field "ActiveState" v) "failed",
          );
          vacant = vacant ((eq_iff pids "").0 (ground (arith, down)));
        })
        (λ off. absurd (off_only refl off))

  read-ShowsDown :
      (b : Bool) (p : Presence)
      → All (λ k. lookup k v ≢ none) required_keys
      → (field "ControlGroup" v == "") ≡ b
      → (read_cgroup w rank unit v b later).0 ≡ ok p
      → P p
  read-ShowsDown true p complete g e off =
      let same = ok-injective e in
      subst (ShowsDown w rank v later) same (
        presence_of-ShowsDown "" complete (λ _. inl ((eq_iff _ "").0 g))
          (ap (λ z. z.state) same ∙ off))
  read-ShowsDown false p complete g e off =
      let (r, r-ok, s) = bind-eq-ok (attempt (command w rank _)) (with_cgroup unit v) later e in
      on_pids r _ (ok-injective r-ok) (ap (λ z. z.0) (sym s) ∙ e)
    where
      on_pids :
          (r : Result String) (h : Host)
          → (command w rank
              ("cat"
                ∷ join_path (join_path "/sys/fs/cgroup" (field "ControlGroup" v)) "cgroup.procs"
                ∷ [])
              later).0
            ≡ r
          → (with_cgroup unit v r h).0 ≡ ok p
          → ShowsDown w rank v later p
      on_pids (ok out) h read e =
          let same = ok-injective e in
          subst (ShowsDown w rank v later) same (
            presence_of-ShowsDown (trim_space out) complete (λ blank. inr (out, read, blank))
              (ap (λ z. z.state) same ∙ off))
      on_pids (err x) h read e = absurd (off_only refl (ap (λ z. z.state) (ok-injective e) ∙ off))

  complete-ShowsDown :
      (missing : Option String) (p : Presence)
      → missing_key required_keys v ≡ missing
      → (if_complete w rank unit v missing later).0 ≡ ok p
      → P p
  complete-ShowsDown (some k) p m e off =
      absurd (off_only refl (ap (λ z. z.state) (ok-injective e) ∙ off))
  complete-ShowsDown none p m e off =
      read-ShowsDown _ p (missing_key-none required_keys v m) refl e off

module _ (w : World) (rank : ℤ) (unit : String) where
  shown-IsDown :
      (h : Host) (r : Result String) (p : Presence)
      → (command w rank (shown_args unit) h).0 ≡ r
      → (shown_presence w rank unit r (command w rank (shown_args unit) h).1).0 ≡ ok p
      → p.state ≡ "OFF_VERIFIED"
      → IsDown w rank unit h p
  shown-IsDown h (err x) p a e off =
      absurd (off_only refl (ap (λ z. z.state) (ok-injective e) ∙ off))
  shown-IsDown h (ok answer) p a e off = record {
    answer = answer;
    asked = a;
    shows = complete-ShowsDown w rank unit (parse_systemd_show answer) _ _ p refl e off;
  }

  -- A unit counts as proven off only where systemctl, asked for it on that rank, answered with all
  -- four of the fields that are needed, no error came up, and by that answer the unit has no main
  -- process and is inactive or failed; it has no cgroup, or the list of the cgroup's processes could
  -- be read and is blank.
  pub unit_presence-IsDown :
      (h : Host) (p : Presence)
      → (unit_presence w rank unit h).0 ≡ ok p
      → p.state ≡ "OFF_VERIFIED"
      → IsDown w rank unit h p
  unfolding unit_presence ◌>>=◌
  unit_presence-IsDown h p e off =
      shown-IsDown h (command w rank (shown_args unit) h).0 p refl e off
