-- ===== src/Cluster/Units/Frontend.antt =====
-- The rank of the frontend's unit.
use strix_halo_cluster_glm.Base.{
  String, List, [], ◌∷◌, ◌≡◌, refl, subst, arith, Bool, true, false, not, ◌||◌, Result, ok, ◌==◌,
  All, any, zero, suc, sprint, sprintf_d, if_cases, is_hex32,
}
use strix_halo_cluster_glm.Base.Integer.{ℤ, pos, negsuc}
use strix_halo_cluster_glm.Cluster.Owner.{OwnedUnit}
use strix_halo_cluster_glm.Cluster.Units.{wanted_name, rank_in_pair, valid_from, valid_units}

abbrev as_frontend : OwnedUnit → OwnedUnit
as_frontend u = record u { rank = pos 1; name = "ciru-frontend-001" }

wanted_name-rank_1 :
    (legacy : Bool) (u : OwnedUnit)
    → ("ciru-frontend-001" == wanted_name legacy (as_frontend u)) ≡ false
unfolding wanted_name sprint sprintf_d
wanted_name-rank_1 true u = refl
wanted_name-rank_1 false u = refl

frontend-rank :
    (r : ℤ) (legacy : Bool) (u : OwnedUnit)
    → u.rank ≡ r
    → u.name ≡ "ciru-frontend-001"
    → rank_in_pair u.rank ≡ true
    → (u.name == wanted_name legacy u) ≡ true
    → u.rank ≡ pos 0
frontend-rank (pos zero) legacy u e n p q = e
frontend-rank (pos (suc zero)) legacy u e n p q =
    let same : u ≡ as_frontend u = cc in
    let found = subst (λ (v : OwnedUnit). (v.name == wanted_name legacy v) ≡ true) same q in
    let differs = wanted_name-rank_1 legacy u in cc
frontend-rank (pos (suc (suc n))) legacy u e m p q =
    let no = subst (λ r. rank_in_pair r ≡ true) e p in absurd (ground (arith, no))
frontend-rank (negsuc n) legacy u e m p q =
    let no = subst (λ r. rank_in_pair r ≡ true) e p in absurd (ground (arith, no))

valid_from-frontend :
    (seen : List String) (us : List OwnedUnit) (legacy : Bool)
    → valid_from seen us legacy ≡ ok tt
    → All (λ u. u.name ≡ "ciru-frontend-001" → u.rank ≡ pos 0) us
unfolding valid_from
valid_from-frontend seen [] legacy = λ e. tt
valid_from-frontend seen (u ∷ us) legacy =
    if_cases
      (λ (r : Result (Unit {0})).
        r ≡ ok tt → All (λ v. v.name ≡ "ciru-frontend-001" → v.rank ≡ pos 0) (u ∷ us))
      (not (rank_in_pair u.rank)
        || not (u.name == wanted_name legacy u)
        || any (λ s. s == u.name) seen
        || not (is_hex32 u.nonce))
      _ _ (λ refused e. absurd (ground arith))
      (λ passed e. (
        λ n. frontend-rank u.rank legacy u refl n (ground (arith, passed)) (ground (arith, passed)),
        valid_from-frontend (u.name ∷ seen) us legacy e,
      ))

-- Of the units that `validUnits` accepts, none but one of rank 0 bears the frontend's name.
pub valid_units-frontend :
    (us : List OwnedUnit) (legacy : Bool)
    → valid_units us legacy ≡ ok tt
    → All (λ u. u.name ≡ "ciru-frontend-001" → u.rank ≡ pos 0) us
unfolding valid_units
valid_units-frontend us legacy e = valid_from-frontend [] us legacy e
