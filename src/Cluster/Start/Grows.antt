-- ===== src/Cluster/Start/Grows.antt =====
-- What the calls of `start` add to the history of the host; none of them takes from it.
use strix_halo_cluster_glm.Base.{
  String, List, [], ◌∷◌, ◌++◌, ◌≡◌, refl, sym, ap, ◌∙◌, ℕ, zero, suc, Bool, true, false, Result, ok,
  err, append_assoc, not, sprint, ◌&&◌,
}
use strix_halo_cluster_glm.Base.Integer.{ℤ}
use strix_halo_cluster_glm.Cluster.Owner.{OwnedUnit, ClusterOwner, ClusterConfig}
use strix_halo_cluster_glm.Cluster.Lease.{SharedComputeReceipt, checked_receipt}
use strix_halo_cluster_glm.Cluster.Host.{
  World, Host, M, discard, Action, saved, published, probed, pure, fail, continue, command, when,
  save, publish, fresh_nonce, write_receipt, health_rounds, controller_health, ◌>>=◌,
}
use strix_halo_cluster_glm.Cluster.Trace.{
  Only, Extends-refl, bind-Yields, pure-Yields, then-Only, refuse_if-Only, unit-Only, command-Only,
}
use strix_halo_cluster_glm.Cluster.Units.{unit, unit_active}
use strix_halo_cluster_glm.Cluster.Stop.Actions.{Queries, inspect_all-Only}
use strix_halo_cluster_glm.Cluster.Start.{
  is_legacy, all_running, health_round, wait_rounds, wait_health,
}

-- The history of the one host lies at the end of the other's.
pub record Grows (h h' : Host) : Type 0 where
  pub added : List Action
  pub history : h'.history ≡ added ++ h.history

abbrev pub Grow : {A : Type 0} → M A → Type 0
Grow m = (h : Host) → Grows h (m h).1

pub Grows-refl : (h : Host) → Grows h h
Grows-refl h = record { added = []; history = refl }

pub Grows-trans : {a b c : Host} → Grows a b → Grows b c → Grows a c
Grows-trans {a} f g = record {
  added = g.added ++ f.added;
  history =
      g.history ∙ ap (λ l. g.added ++ l) f.history ∙ sym (append_assoc g.added f.added a.history);
}

-- Any action at all.
abbrev Anything : Action → Type 0
Anything a = Unit

Only-Grow : {A : Type 0} (m : M A) → Only Anything m → Grow m
Only-Grow m o h = record { added = (o.run h).added; history = (o.run h).history }

pub command-Grow : (w : World) (rank : ℤ) (args : List String) → Grow (command w rank args)
command-Grow w rank args = Only-Grow _ (command-Only w rank args tt)

pub unit-Grow : (w : World) (u : OwnedUnit) → Grow (unit w u)
unit-Grow w u = Only-Grow _ (unit-Only w u tt)

pub save-Grow : (w : World) (o : ClusterOwner) → Grow (save w o)
unfolding save
save-Grow w o h = record {
  added = saved (record o { updated = w.now h.history }) ∷ [];
  history = refl;
}

pub fresh_nonce-Grow : (w : World) → Grow (fresh_nonce w)
unfolding fresh_nonce
fresh_nonce-Grow w h = Grows-refl h

pub publish-Grow :
    (w : World) (cfg : ClusterConfig) (r : SharedComputeReceipt) → Grow (publish w cfg r)
unfolding publish write_receipt
publish-Grow w cfg r h = go (checked_receipt (w.now h.history) cfg.shared_state_dir r)
  where
    go : (x : Result SharedComputeReceipt) → Grows h (continue x (write_receipt w) h).1
    go (ok r) = record { added = published r ∷ []; history = refl }
    go (err e) = Grows-refl h

pub discarded-Grow : (m : M String) → Grow m → Grow (discard m)
unfolding ◌>>=◌
discarded-Grow m g h = go (m h).0 (g h)
  where
    go : (r : Result String) → Grows h (m h).1 → Grows h (continue r (λ _. pure tt) (m h).1).1
    go (ok a) later = later
    go (err e) later = later

pub when-Grow : (b : Bool) (m : M (Unit {0})) → Grow m → Grow (when b m)
when-Grow true m g h = g h
when-Grow false m g h = Grows-refl h

all_queried : (us : List OwnedUnit) → Queries Anything us
all_queried [] = tt
all_queried (u ∷ us) = (tt, all_queried us)

controller_health-Only : (w : World) (url : String) → Only Anything (controller_health w url)
unfolding controller_health
controller_health-Only w url = record {
  run = λ h. record {
    added = probed url ∷ [];
    history = refl;
    each = (tt, tt);
    owner = refl;
    shared = refl;
    poison = refl;
  };
  result = λ h a e. tt;
}

all_running-Only : (w : World) (us : List OwnedUnit) → Only Anything (all_running w us)
unfolding all_running
all_running-Only w [] = pure-Yields tt tt
all_running-Only w (u ∷ us) = bind-Yields (unit w u) _ (unit-Only w u tt) (λ m _.
    then-Only _ _
      (refuse_if-Only (not (unit_active m)) (sprint ("unit exited during load: " ∷ u.name ∷ [])))
      (all_running-Only w us))

module _ (w : World) (a b : String) (us : List OwnedUnit) where
  health_round-Only : Only Anything (health_round w a b us)
  unfolding health_round
  health_round-Only = then-Only _ _ (inspect_all-Only w us (is_legacy us) (all_queried us)) (
      then-Only _ _ (all_running-Only w us) (
        bind-Yields (controller_health w a) _ (controller_health-Only w a) (λ x _.
          bind-Yields (controller_health w b) _ (controller_health-Only w b)
            (λ y _. pure-Yields (x && y) tt))))

  on_health-Only :
      (m : M (Unit {0})) (healthy : Bool)
      → Only Anything m
      → Only Anything (elim healthy [ true ↦ pure tt | false ↦ m ])
  on_health-Only m true o = pure-Yields tt tt
  on_health-Only m false o = o

  wait_rounds-Only : (n : ℕ) → Only Anything (wait_rounds w a b us n)
  unfolding wait_rounds
  wait_rounds-Only zero = bind-Yields (health_round w a b us) _ health_round-Only (λ healthy _.
      on_health-Only (fail "context deadline exceeded") healthy
        (record { run = Extends-refl; result = λ h a e. tt }))
  wait_rounds-Only (suc n) =
      bind-Yields (health_round w a b us) _ health_round-Only
        (λ healthy _. on_health-Only (wait_rounds w a b us n) healthy (wait_rounds-Only n))

  pub wait_health-Grow : Grow (wait_health w a b us)
  unfolding wait_health health_rounds
  wait_health-Grow = Only-Grow _ (
      bind-Yields (health_rounds w) _ (record { run = Extends-refl; result = λ h a e. tt })
        (λ n _. wait_rounds-Only n))
