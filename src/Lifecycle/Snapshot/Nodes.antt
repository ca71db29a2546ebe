-- ===== src/Lifecycle/Snapshot/Nodes.antt =====
-- The nodes that a snapshot's survey lists.
use strix_halo_cluster_glm.Base.{
  String, sprint, sprintf_d, ne_of_test, ◌==◌, List, [], ◌∷◌, ◌++◌, ◌≡◌, refl, sym, ap, ◌∙◌, subst,
  arith, Bool, true, false, not, ◌&&◌, ◌||◌, Result, ok, err, eq_iff, ok-injective,
}
use strix_halo_cluster_glm.Base.Integer.{ℤ, pos, int_eq}
use strix_halo_cluster_glm.Cluster.Owner.{OwnedUnit, ClusterOwner, ClusterConfig}
use strix_halo_cluster_glm.Cluster.Lease.{SharedComputeReceipt, read_shared_compute}
use strix_halo_cluster_glm.Cluster.Host.{World, Host, attempt, read_shared, read_owner}
use strix_halo_cluster_glm.Cluster.Trace.{bind-eq-ok, Extends, Extends-refl, Extends-trans}
use strix_halo_cluster_glm.Cluster.Units.{Fields}
use strix_halo_cluster_glm.Lifecycle.Services.{Services}
use strix_halo_cluster_glm.Lifecycle.Memory.{node_memory}
use strix_halo_cluster_glm.Lifecycle.Presence.{Presence, unit_presence, ds41_state, pair_state}
use strix_halo_cluster_glm.Lifecycle.Presence.Stopped.{IsDown, unit_presence-IsDown}
use strix_halo_cluster_glm.Lifecycle.Presence.Known.{IsClear, clear-IsDown}
use strix_halo_cluster_glm.Lifecycle.Snapshot.Looks.{
  IsLook, ds41_state-Looks, surveys-Looks, survey_rank-Looks,
}
use strix_halo_cluster_glm.Lifecycle.Snapshot.{
  Lifecycle, Facts, foreign_peer, facts, gathered, running_pair,
}
use strix_halo_cluster_glm.Lifecycle.Survey.{
  LifecycleNode, Survey, asked, measured_node, with_memory, no_survey, units_of, is_ready, node_of,
  survey_rank, surveys, unit_of, is_owned,
}

-- The engine of a node is proven off.
abbrev pub IsOff : LifecycleNode → Type 0
IsOff n = n.engine_state ≡ "OFF_VERIFIED"

-- On the way from `h`, with only queries behind it, the unit of the rank was seen to be off.
pub record SeenDown (w : World) (rank : ℤ) (unit : String) (h : Host) : Type 0 where
  pub at : Host
  pub since : Extends IsLook h at
  pub presence : Presence
  pub down : IsDown w rank unit at presence

pub SeenDown-since :
    (w : World) (rank : ℤ) (unit : String) {h h' : Host}
    → Extends IsLook h h'
    → SeenDown w rank unit h'
    → SeenDown w rank unit h
SeenDown-since w rank unit g x = record {
  at = x.at;
  since = Extends-trans g x.since;
  presence = x.presence;
  down = x.down;
}

abbrev rank_unit : ℤ → String
rank_unit rank = sprint ("strixglm-rank" ∷ sprintf_d rank ∷ ".service" ∷ [])

asked-SeenDown :
    (w : World) (rank : ℤ) (peer b : Bool) (h : Host) (x : Presence × Bool)
    → (asked w rank peer b h).0 ≡ ok x
    → x.0.state ≡ "OFF_VERIFIED"
    → SeenDown w rank (rank_unit rank) h
asked-SeenDown w rank peer true h x e off =
    absurd (ne_of_test "UNKNOWN" "OFF_VERIFIED" refl (ap (λ z. z.0.state) (ok-injective e) ∙ off))
asked-SeenDown w rank peer false h x e off =
    let (p, answered, same) = bind-eq-ok (unit_presence w rank (rank_unit rank)) _ h e in
    let is_p = ap (λ z. z.0.state) (ok-injective (ap (λ z. z.0) (sym same) ∙ e)) in
    record {
      at = h;
      since = Extends-refl h;
      presence = p;
      down = unit_presence-IsDown w rank (rank_unit rank) h p answered (is_p ∙ off);
    }

foreign_peer-SeenDown :
    (w : World) (b : Bool) (h : Host) (p : Presence)
    → (foreign_peer w b h).0 ≡ ok p
    → IsClear p
    → SeenDown w (pos 1) "ds41-rank1.service" h
unfolding ds41_state sprint sprintf_d
foreign_peer-SeenDown w true h p e clear =
    absurd (ground (arith, ap (λ z. z.state == "UNKNOWN") (ok-injective e), clear.0))
foreign_peer-SeenDown w false h p e clear = record {
  at = h;
  since = Extends-refl h;
  presence = p;
  down = clear-IsDown w (pos 1) "ds41-rank1.service" h p e clear;
}

module _ (w : World) (s : Services) where
  measured-node :
      (rank : ℤ) (peer : Bool) (n : LifecycleNode) (b : Bool) (h : Host) (y : LifecycleNode × Bool)
      → (measured_node w s rank peer n b h).0 ≡ ok y
      → (y.0.engine_state ≡ n.engine_state) × (y.0.rank ≡ n.rank)
  measured-node rank peer n false h y e =
      let same = sym (ok-injective e) in (ap (λ z. z.0.engine_state) same, ap (λ z. z.0.rank) same)
  measured-node rank peer n true h y e =
      let (r, _, same) = bind-eq-ok (attempt (node_memory w s rank)) _ h e in
      on_memory r (ok-injective (ap (λ z. z.0) (sym same) ∙ e))
    where
      on_memory :
          (r : Result (ℤ × ℤ))
          → with_memory rank peer n r ≡ y
          → (y.0.engine_state ≡ n.engine_state) × (y.0.rank ≡ n.rank)
      on_memory (ok x) g = (ap (λ z. z.0.engine_state) (sym g), ap (λ z. z.0.rank) (sym g))
      on_memory (err x) g = (ground arith, ground arith)

  -- One round adds the node of its rank.
  record Added (rank : ℤ) (sv sv' : Survey) (h : Host) : Type 0 where
    node : LifecycleNode
    nodes : sv'.nodes ≡ sv.nodes ++ node ∷ []
    rank_is : node.rank ≡ rank
    off : sv'.all_off ≡ true → (sv.all_off ≡ true) × IsOff node × SeenDown w rank (rank_unit rank) h

  survey_rank-Added :
      (owned : List OwnedUnit) (rank : ℤ) (sv sv' : Survey) (h : Host)
      → (survey_rank w s owned rank sv h).0 ≡ ok sv'
      → Added rank sv sv' h
  unfolding survey_rank node_of
  survey_rank-Added owned rank sv sv' h e =
      let (x, answered, s₁) =
        bind-eq-ok (asked w rank sv.peer_unknown (int_eq rank (pos 1) && sv.peer_unknown)) _ h e in
      let e₁ = ap (λ z. z.0) (sym s₁) ∙ e in
      let (y, measured, s₂) =
        bind-eq-ok
          (measured_node w s rank x.1 (node_of rank x.0 (is_owned (unit_of rank owned) x.0.fields))
            (int_eq rank (pos 0) || not x.1))
          _ _ e₁ in
      let same = ok-injective (ap (λ z. z.0) (sym s₂) ∙ e₁) in
      let (state, numbered) = measured-node rank x.1 _ _ _ y measured in
      subst (λ y. Added rank sv y h) same
        (record {
          node = y.0;
          nodes = refl;
          rank_is = numbered;
          off = λ all. (
            ground (arith, all),
            state ∙ (eq_iff x.0.state "OFF_VERIFIED").0 (ground (arith, all)),
            asked-SeenDown w rank sv.peer_unknown _ h x answered
                ((eq_iff x.0.state "OFF_VERIFIED").0 (ground (arith, all))),
          );
        })

  -- The nodes of both ranks, in their order.
  pub record Both (sv : Survey) (h : Host) : Type 0 where
    pub first : LifecycleNode
    pub second : LifecycleNode
    pub nodes : sv.nodes ≡ first ∷ second ∷ []
    pub rank_0 : first.rank ≡ pos 0
    pub rank_1 : second.rank ≡ pos 1
    pub off :
        sv.all_off ≡ true
        → IsOff first
          × IsOff second
          × SeenDown w (pos 0) "strixglm-rank0.service" h
          × SeenDown w (pos 1) "strixglm-rank1.service" h

  surveys-Both :
      (owner : Result ClusterOwner) (sv : Survey) (h : Host)
      → (surveys w s owner h).0 ≡ ok sv
      → Both sv h
  unfolding surveys sprint sprintf_d
  surveys-Both owner sv h e =
      let none_yet = no_survey (is_ready owner) in
      let (one, first, s₁) = bind-eq-ok (survey_rank w s (units_of owner) (pos 0) none_yet) _ h e in
      let e₁ = ap (λ z. z.0) (sym s₁) ∙ e in
      let a = survey_rank-Added (units_of owner) (pos 0) none_yet one h first in
      let b = survey_rank-Added (units_of owner) (pos 1) one sv _ e₁ in
      record {
        first = a.node;
        second = b.node;
        nodes = b.nodes ∙ ap (λ l. l ++ b.node ∷ []) a.nodes;
        rank_0 = a.rank_is;
        rank_1 = b.rank_is;
        off = λ all.
            let (before, off₁, down₁) = b.off all in
            let (_, off₀, down₀) = a.off before in
            (
              off₀,
              off₁,
              down₀,
              SeenDown-since w (pos 1) "strixglm-rank1.service"
                  ((survey_rank-Looks w s (units_of owner) (pos 0) none_yet).run h) down₁,
            );
      }

  -- What was gathered, and what the other model's units have shown.
  pub record Gathered (m : Lifecycle) (shared : Result SharedComputeReceipt) (pair : Result Fields)
      (f : Facts) (h : Host) : Type 0 where
    pub both : Both f.survey h
    pub transient : f.transient ≡ m.transient
    pub read : f.shared ≡ shared
    pub coordinator : f.pair_running ≡ running_pair pair
    pub near : IsClear f.local_foreign → SeenDown w (pos 0) "ds41-rank0.service" h
    pub far : IsClear f.peer_foreign → SeenDown w (pos 1) "ds41-rank1.service" h

  gathered-Both :
      (m : Lifecycle) (shared : Result SharedComputeReceipt) (pair : Result Fields)
      (owner : Result ClusterOwner) (f : Facts) (h : Host)
      → (gathered w s m shared pair owner h).0 ≡ ok f
      → Gathered m shared pair f h
  unfolding gathered ds41_state sprint sprintf_d
  gathered-Both m shared pair owner f h e =
      let (both, walked, s₁) = bind-eq-ok (surveys w s owner) _ h e in
      let e₁ = ap (λ z. z.0) (sym s₁) ∙ e in
      let (near, near_ok, s₂) = bind-eq-ok (ds41_state w (pos 0)) _ _ e₁ in
      let e₂ = ap (λ z. z.0) (sym s₂) ∙ e₁ in
      let (far, far_ok, s₃) = bind-eq-ok (foreign_peer w both.peer_unknown) _ _ e₂ in
      let same = ok-injective (ap (λ z. z.0) (sym s₃) ∙ e₂) in
      let h₁ = (surveys w s owner h).1 in
      let h₂ = (ds41_state w (pos 0) h₁).1 in
      let surveyed = (surveys-Looks w s owner).run h in
      subst (λ (f : Facts). Gathered m shared pair f h) same
        (record {
          both = surveys-Both owner both h walked;
          transient = refl;
          read = refl;
          coordinator = refl;
          near = λ clear. record {
            at = h₁;
            since = surveyed;
            presence = near;
            down = clear-IsDown w (pos 0) "ds41-rank0.service" h₁ near near_ok clear;
          };
          far = λ clear.
              SeenDown-since w (pos 1) "ds41-rank1.service"
                (Extends-trans surveyed ((ds41_state-Looks w (pos 0)).run h₁))
                (foreign_peer-SeenDown w both.peer_unknown h₂ far far_ok clear);
        })

  module _ (cfg : ClusterConfig) (m : Lifecycle) where
    pub facts-Gathered :
        (f : Facts) (h : Host)
        → (facts w s cfg m h).0 ≡ ok f
        → Gathered m
            (read_shared_compute cfg.shared_state_dir h.shared)
            (pair_state s h).0
            f
            (pair_state s h).1
    unfolding facts read_shared read_owner
    facts-Gathered f h e =
        let (shared, read, s₀) = bind-eq-ok (attempt (read_shared w cfg)) _ h e in
        let e₀ = ap (λ z. z.0) (sym s₀) ∙ e in
        let (pair, asked_pair, s₁) = bind-eq-ok (attempt (pair_state s)) _ h e₀ in
        let e₁ = ap (λ z. z.0) (sym s₁) ∙ e₀ in
        let (owner, _, s₂) = bind-eq-ok (attempt (read_owner w)) _ _ e₁ in
        let g = gathered-Both m shared pair owner f _ (ap (λ z. z.0) (sym s₂) ∙ e₁) in
        record {
          both = g.both;
          transient = g.transient;
          read = g.read ∙ sym (ok-injective read);
          coordinator = g.coordinator ∙ ap running_pair (sym (ok-injective asked_pair));
          near = g.near;
          far = g.far;
        }
