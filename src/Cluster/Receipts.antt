-- ===== src/Cluster/Receipts.antt =====
-- The receipt that the controller writes for a pair identifies that pair.
use strix_halo_cluster_glm.Base.{
  String, List, [], ◌∷◌, ◌≡◌, refl, sym, ap, ◌∙◌, ◌≢◌, arith, ok, eq_iff, eq_refl, All, some, false,
  lookup, insert, lookup-insert, sprint, sprintf_d,
}
use strix_halo_cluster_glm.Cluster.Owner.{OwnedUnit, ClusterOwner}
use strix_halo_cluster_glm.Cluster.Lease.{
  SharedComputeRank, glm_ranks, shared_from_glm, ranks_match, rank_differs, shared_matches_glm,
}
use strix_halo_cluster_glm.Cluster.Units.{valid_units}
use strix_halo_cluster_glm.Cluster.Units.Names.{IsBound, Distinct, valid_units_iff}

abbrev Ranks : Type 0
Ranks = List (String × SharedComputeRank)

abbrev key : OwnedUnit → String
key u = sprintf_d u.rank

abbrev entry : OwnedUnit → SharedComputeRank
entry u = record {
  unit = sprint (u.name ∷ ".service" ∷ []);
  invocation_id = u.invocation_id;
  nonce = u.nonce;
}

abbrev DistinctKeys : List OwnedUnit → Type 0
DistinctKeys [] = Unit
DistinctKeys (u ∷ us) = All (λ v. key v ≢ key u) us × DistinctKeys us

Distinct-keys : (us : List OwnedUnit) → All IsBound us → Distinct us → DistinctKeys us
Distinct-keys [] b d = tt
Distinct-keys (u ∷ us) (bu, b) (du, d) = (apart us b du, Distinct-keys us b d)
  where
    apart :
        (vs : List OwnedUnit)
        → All IsBound vs
        → All (λ v. v.name ≢ u.name) vs
        → All (λ v. key v ≢ key u) vs
    apart [] b d = tt
    apart (v ∷ vs) (bv, b) (dv, d) = (
      λ e. dv (bv.name ∙ ap (λ k. sprint ("strixglm-rank" ∷ k ∷ [])) e ∙ sym bu.name),
      apart vs b d,
    )

-- Ranks of later units leave an entry alone.
glm_ranks-other :
    (m : Ranks) (k : String) (us : List OwnedUnit)
    → All (λ v. key v ≢ k) us
    → lookup k (glm_ranks m us) ≡ lookup k m
unfolding glm_ranks
glm_ranks-other m k [] h = refl
glm_ranks-other m k (u ∷ us) (hu, h) =
    glm_ranks-other (insert (key u) (entry u) m) k us h
    ∙ lookup-insert (key u) k (entry u) m
    ∙ ground (arith, eq_iff (key u) k)

glm_ranks-All :
    (m : Ranks) (us : List OwnedUnit)
    → DistinctKeys us
    → All (λ u. lookup (key u) (glm_ranks m us) ≡ some (entry u)) us
unfolding glm_ranks
glm_ranks-All m [] d = tt
glm_ranks-All m (u ∷ us) (du, d) = (
  glm_ranks-other (insert (key u) (entry u) m) (key u) us du
      ∙ lookup-insert (key u) (key u) (entry u) m
      ∙ rw (eq_refl (key u)),
  glm_ranks-All (insert (key u) (entry u) m) us d,
)

ranks_match-of :
    (m : Ranks) (us : List OwnedUnit)
    → All (λ u. lookup (key u) m ≡ some (entry u)) us
    → ranks_match m us ≡ ok tt
unfolding ranks_match rank_differs
ranks_match-of m [] h = refl
ranks_match-of m (u ∷ us) (hu, h) = rw (hu, rank_differs) (simp (eq_refl) (ranks_match-of m us h))

-- A receipt written for an owner whose units are valid matches that owner, whatever state and detail
-- it is written with, and at whatever time.
pub matches-shared_from_glm :
    (o : ClusterOwner) (state detail now : String)
    → valid_units o.units false ≡ ok tt
    → shared_matches_glm (record (shared_from_glm state o detail) { updated = now }) o ≡ ok tt
unfolding shared_matches_glm shared_from_glm
matches-shared_from_glm o state detail now h =
    let (each, distinct) = (valid_units_iff o.units).0 h in
    simp eq_refl
      (ranks_match-of _ o.units (glm_ranks-All [] o.units (Distinct-keys o.units each distinct)))
