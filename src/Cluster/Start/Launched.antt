-- ===== src/Cluster/Start/Launched.antt =====
-- A unit that the loop of `start` has launched on a rank.
use strix_halo_cluster_glm.Base.{
  String, List, [], ◌∷◌, ◌≡◌, refl, sym, ap, ◌∙◌, subst, inl, inr, arith, Bool, true, false, not,
  ok, ◌==◌, sprint, sprintf_d, join_path,
}
use strix_halo_cluster_glm.Base.Integer.{ℤ}
use strix_halo_cluster_glm.Cluster.Owner.{OwnedUnit, ClusterOwner, ClusterConfig}
use strix_halo_cluster_glm.Cluster.Host.{
  World, Host, pure, lift, discard, refuse_if, when, command, ◌>>=◌, ◌>>◌,
}
use strix_halo_cluster_glm.Cluster.Trace.{bind-eq-ok, then-eq-ok, ok-injective}
use strix_halo_cluster_glm.Cluster.Units.{Fields, field, unit, unit_active, verify_unit}
use strix_halo_cluster_glm.Cluster.Units.Identity.{Owns, verify_unit_iff}
use strix_halo_cluster_glm.Cluster.Verify.{rank_url, url_port}
use strix_halo_cluster_glm.Cluster.Start.{launch_args, launch, rank_args, rank_log, reserved}
use strix_halo_cluster_glm.Cluster.Start.Grows.{
  Grows, Grows-refl, Grows-trans, unit-Grow, command-Grow, when-Grow, discarded-Grow,
}

-- The command line that starts a rank's engine under the unit's name and nonce, in the epoch.
abbrev pub engine_args : ClusterConfig → String → ℤ → OwnedUnit → List String
engine_args cfg epoch rank u =
    "systemd-run"
    ∷ "--user"
    ∷ sprint ("--unit=" ∷ u.name ∷ [])
    ∷ sprint ("--setenv=CIRU_OWNER_NONCE=" ∷ u.nonce ∷ [])
    ∷ "--property=RuntimeMaxSec=infinity"
    ∷ "--property=KillMode=control-group"
    ∷ "--property=TimeoutStopSec=20"
    ∷ "--property=MemorySwapMax=0"
    ∷ sprint ("--property=MemoryMax=" ∷ "124554051584" ∷ [])
    ∷ sprint (
        "--property=StandardOutput=append:"
        ∷ join_path (join_path cfg.state_dir "logs")
            (sprint (epoch ∷ "-rank" ∷ sprintf_d rank ∷ ".log" ∷ []))
        ∷ [])
    ∷ "--property=StandardError=inherit"
    ∷ "bash"
    ∷ cfg.launcher
    ∷ cfg.engine_root
    ∷ sprintf_d rank
    ∷ epoch
    ∷ url_port (rank_url cfg rank)
    ∷ sprintf_d cfg.master_port
    ∷ join_path cfg.state_dir "settings"
    ∷ []

-- On the rank, systemd-run started the engine without an error, and the unit answered right behind it
-- that it is active, under the nonce and under the invocation that the owner records; the rest of the
-- run to `final` came later.
pub record IsLaunched (w : World) (cfg : ClusterConfig) (epoch : String) (rank : ℤ) (u : OwnedUnit)
    (final : Host) : Type 0 where
  pub rank_is : u.rank ≡ rank
  pub name : u.name ≡ sprint ("strixglm-rank" ∷ sprintf_d rank ∷ [])
  pub before : Host
  pub output : String
  pub started : (command w rank (engine_args cfg epoch rank u) before).0 ≡ ok output
  pub shown : Fields
  pub answer : (unit w u (command w rank (engine_args cfg epoch rank u) before).1).0 ≡ ok shown
  pub active : unit_active shown ≡ true
  pub owned : Owns u shown
  pub identity : field "InvocationID" shown ≡ u.invocation_id
  pub later : Grows (unit w u (command w rank (engine_args cfg epoch rank u) before).1).1 final

pub IsLaunched-later :
    (w : World) (cfg : ClusterConfig) (epoch : String) (rank : ℤ) (u : OwnedUnit) (h final : Host)
    → Grows h final
    → IsLaunched w cfg epoch rank u h
    → IsLaunched w cfg epoch rank u final
IsLaunched-later w cfg epoch rank u h final g x = record {
  rank_is = x.rank_is;
  name = x.name;
  before = x.before;
  output = x.output;
  started = x.started;
  shown = x.shown;
  answer = x.answer;
  active = x.active;
  owned = x.owned;
  identity = x.identity;
  later = Grows-trans x.later g;
}

-- The unit as the launch found it, once the launch has succeeded.
pub record Up (w : World) (u : OwnedUnit) (args : List String) (id : String) (h final : Host)
    : Type 0 where
  pub before : Host
  pub output : String
  pub started : (command w u.rank args before).0 ≡ ok output
  pub shown : Fields
  pub answer : (unit w u (command w u.rank args before).1).0 ≡ ok shown
  pub active : unit_active shown ≡ true
  pub verified : verify_unit u shown ≡ ok tt
  pub identity : field "InvocationID" shown ≡ id
  pub last : final ≡ (unit w u (command w u.rank args before).1).1
  pub grown : Grows h final

refuse_if-ok :
    (b : Bool) (e : String) (h : Host)
    → (refuse_if b e h).0 ≡ ok tt
    → (b ≡ false) × ((refuse_if b e h).1 ≡ h)
refuse_if-ok false e h r = (refl, refl)
refuse_if-ok true e h r = cc

module _ (w : World) (u : OwnedUnit) (args : List String) (log memory : String) where
  abbrev run_args : List String
  run_args = launch_args u args log memory

  pub launch-Up :
      (h : Host) (id : String)
      → (launch w u args log memory h).0 ≡ ok id
      → Up w u run_args id h (launch w u args log memory h).1
  unfolding launch
  launch-Up h id e =
      let finish = λ (m : Fields).
        lift (verify_unit u m)
        >> (refuse_if (not (unit_active m)) "launched unit exited"
            >> pure (field "InvocationID" m)) in
      let run = discard (command w u.rank run_args) in
      let again = unit w u >>= finish in
      let reset = λ (m : Fields).
        when (field "ActiveState" m == "failed")
          (discard (command w u.rank ("systemctl" ∷ "--user" ∷ "reset-failed" ∷ u.name ∷ []))) in
      let go = λ (m : Fields).
        refuse_if (unit_active m) (sprint ("unit already active: " ∷ u.name ∷ []))
        >> (reset m >> (run >> again)) in
      let (m, _, s₀) = bind-eq-ok (unit w u) go h e in
      let h₀ = (unit w u h).1 in
      let e₀ = ap (λ x. x.0) (sym s₀) ∙ e in
      let (idle, s₁) = then-eq-ok (refuse_if (unit_active m) _) (reset m >> (run >> again)) h₀ e₀ in
      let h₁ = (refuse_if (unit_active m) (sprint ("unit already active: " ∷ u.name ∷ [])) h₀).1 in
      let e₁ = ap (λ x. x.0) (sym s₁) ∙ e₀ in
      let (_, s₂) = then-eq-ok (reset m) (run >> again) h₁ e₁ in
      let h₂ = (reset m h₁).1 in
      let e₂ = ap (λ x. x.0) (sym s₂) ∙ e₁ in
      let (ran, s₃) = then-eq-ok run again h₂ e₂ in
      let e₃ = ap (λ x. x.0) (sym s₃) ∙ e₂ in
      let (out, started, s₄) = bind-eq-ok (command w u.rank run_args) (λ _. pure tt) h₂ ran in
      let h₃ = (command w u.rank run_args h₂).1 in
      let there : (run h₂).1 ≡ h₃ = ap (λ x. x.1) s₄ in
      let e₄ = ap (λ k. (again k).0) (sym there) ∙ e₃ in
      let (shown, answer, s₅) = bind-eq-ok (unit w u) finish h₃ e₄ in
      let h₄ = (unit w u h₃).1 in
      let e₅ = ap (λ x. x.0) (sym s₅) ∙ e₄ in
      let (verified, s₆) = then-eq-ok (lift (verify_unit u shown)) _ h₄ e₅ in
      let e₆ = ap (λ x. x.0) (sym s₆) ∙ e₅ in
      let (up, s₇) =
        then-eq-ok (refuse_if (not (unit_active shown)) "launched unit exited") _ h₄ e₆ in
      let (active, h₄_kept) = refuse_if-ok (not (unit_active shown)) _ h₄ up in
      let e₇ = ap (λ x. x.0) (sym s₇) ∙ e₆ in
      let last = ap (λ x. x.1) (s₀ ∙ s₁ ∙ s₂ ∙ s₃ ∙ ap again there ∙ s₅ ∙ s₆ ∙ s₇) ∙ h₄_kept in
      record {
        before = h₂;
        output = out;
        started = started;
        shown = shown;
        answer = answer;
        active = ground (arith, active);
        verified = verified;
        identity = ok-injective e₇;
        last = last;
        grown = subst (Grows h) (sym last) (
            Grows-trans (unit-Grow w u h) (
              Grows-trans (subst (λ k. Grows k h₁) (refuse_if-ok _ _ h₀ idle).1 (Grows-refl h₁)) (
                Grows-trans (reset-Grow m h₁)
                  (Grows-trans (command-Grow w u.rank run_args h₂) (unit-Grow w u h₃)))));
      }
    where
      reset-Grow :
          (m : Fields) (h : Host)
          → Grows h
              (when
                (field "ActiveState" m == "failed")
                (discard (command w u.rank ("systemctl" ∷ "--user" ∷ "reset-failed" ∷ u.name ∷ [])))
                h).1
      reset-Grow m = when-Grow _ _ (discarded-Grow (command w u.rank _) (command-Grow w u.rank _))

verified-Owns :
    (u : OwnedUnit) (m : Fields) → unit_active m ≡ true → verify_unit u m ≡ ok tt → Owns u m
verified-Owns u m up v = elim ((verify_unit_iff u m).0 v) [ inl off ↦ cc | inr x ↦ x ]

pub Up-IsLaunched :
    (w : World) (cfg : ClusterConfig) (o : ClusterOwner) (rank : ℤ) (nonce id : String)
    (h final later : Host)
    → Up w
        (reserved rank nonce)
        (launch_args
          (reserved rank nonce)
          (rank_args cfg o rank)
          (rank_log cfg o rank)
          "124554051584")
        id
        h
        final
    → Grows final later
    → IsLaunched w cfg o.epoch rank (record (reserved rank nonce) { invocation_id = id }) later
unfolding launch_args rank_args unit
Up-IsLaunched w cfg o rank nonce id h final later x g =
    let owns = verified-Owns (reserved rank nonce) x.shown x.active x.verified in
    record {
      rank_is = refl;
      name = refl;
      before = x.before;
      output = x.output;
      started = x.started;
      shown = x.shown;
      answer = x.answer;
      active = x.active;
      owned = record {
        nonce = owns.nonce;
        invocation = owns.invocation;
        marked = owns.marked;
        same = inr x.identity;
      };
      identity = x.identity;
      later = subst (λ k. Grows k later) x.last g;
    }
