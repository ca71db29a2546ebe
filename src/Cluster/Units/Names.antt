-- ===== src/Cluster/Units/Names.antt =====
-- What `validUnits` and `verifyUnit` establish.
use strix_halo_cluster_glm.Base.{
  String, List, [], ◌∷◌, zero, suc, ◌≤◌, ◌≡◌, refl, ◌≢◌, ◌⊎◌, inl, inr, ◌↔◌, arith, true, false, ok,
  ◌==◌, eq_iff, All, All-map, length, any, is_hex32, sprint, sprintf_d,
}
use strix_halo_cluster_glm.Base.Integer.{ℤ, pos, negsuc}
use strix_halo_cluster_glm.Cluster.Owner.{OwnedUnit}
use strix_halo_cluster_glm.Cluster.Units.{valid_units, valid_from, wanted_name, rank_in_pair}

-- The unit is one of the pair's, under the name and rank that belong together.
pub record IsBound (u : OwnedUnit) : Type 0 where
  pub rank : (u.rank ≡ pos 0) ⊎ (u.rank ≡ pos 1)
  pub name : u.name ≡ sprint ("strixglm-rank" ∷ sprintf_d u.rank ∷ [])
  pub nonce : is_hex32 u.nonce ≡ true

abbrev pub HasName : String → OwnedUnit → Type 0
HasName s u = u.name ≡ s

abbrev pub Distinct : List OwnedUnit → Type 0
Distinct [] = Unit
Distinct (u ∷ us) = All (λ v. v.name ≢ u.name) us × Distinct us

-- None of the names seen so far.
abbrev Fresh : List String → OwnedUnit → Type 0
Fresh [] u = Unit
Fresh (s ∷ ss) u = (u.name ≢ s) × Fresh ss u

any-Fresh :
    (seen : List String) (u : OwnedUnit) → any (λ s. s == u.name) seen ≡ false → Fresh seen u
any-Fresh [] u h = tt
any-Fresh (s ∷ ss) u h = ((λ e. ground (arith, eq_iff s u.name)), any-Fresh ss u (ground arith))

rank_in_pair-cases : (r : ℤ) → rank_in_pair r ≡ true → (r ≡ pos 0) ⊎ (r ≡ pos 1)
rank_in_pair-cases (pos zero) h = inl refl
rank_in_pair-cases (pos (suc zero)) h = inr refl
rank_in_pair-cases (pos (suc (suc n))) h = ground arith
rank_in_pair-cases (negsuc n) h = cc

-- One round of the loop of `validUnits`, undone.
valid_from-cons :
    (seen : List String) (u : OwnedUnit) (us : List OwnedUnit)
    → valid_from seen (u ∷ us) false ≡ ok tt
    → IsBound u × Fresh seen u × (valid_from (u.name ∷ seen) us false ≡ ok tt)
unfolding valid_from
valid_from-cons seen u us h = (
  record {
    rank = rank_in_pair-cases u.rank (ground arith);
    name = (eq_iff _ _).0 (ground arith);
    nonce = ground arith;
  },
  any-Fresh seen u (ground arith),
  ground arith,
)

valid_from-Fresh :
    (seen : List String) (us : List OwnedUnit)
    → valid_from seen us false ≡ ok tt
    → All (λ u. IsBound u × Fresh seen u) us × Distinct us
valid_from-Fresh seen [] h = (tt, tt)
valid_from-Fresh seen (u ∷ us) h =
    let (bound, fresh, rest) = valid_from-cons seen u us h in
    let (each, distinct) = valid_from-Fresh (u.name ∷ seen) us rest in
    (
      ((bound, fresh), All-map _ _ (λ v p. (p.0, p.1.1)) us each),
      (All-map _ _ (λ v p. p.1.0) us each, distinct),
    )

Fresh-any :
    (seen : List String) (u : OwnedUnit) → Fresh seen u → any (λ s. s == u.name) seen ≡ false
Fresh-any [] u h = refl
Fresh-any (s ∷ ss) u h = ground (arith, eq_iff s u.name, Fresh-any ss u h.1, h.0)

IsBound-accepted :
    (u : OwnedUnit)
    → IsBound u
    → (rank_in_pair u.rank ≡ true) × ((u.name == wanted_name false u) ≡ true)
unfolding wanted_name
IsBound-accepted u b = (elim b.rank [ inl e ↦ rw e | inr e ↦ rw e ], (eq_iff _ _).1 b.name)

zip_Fresh :
    (seen : List String) (u : OwnedUnit) (us : List OwnedUnit)
    → All (λ v. IsBound v × Fresh seen v) us
    → All (λ v. v.name ≢ u.name) us
    → All (λ v. IsBound v × Fresh (u.name ∷ seen) v) us
zip_Fresh seen u [] h d = tt
zip_Fresh seen u (v ∷ us) h d = ((h.0.0, (d.0, h.0.1)), zip_Fresh seen u us h.1 d.1)

valid_from-of :
    (seen : List String) (us : List OwnedUnit)
    → All (λ u. IsBound u × Fresh seen u) us
    → Distinct us
    → valid_from seen us false ≡ ok tt
unfolding valid_from
valid_from-of seen [] h d = refl
valid_from-of seen (u ∷ us) ((b, fresh), h) (d, ds) =
    let (in_pair, named) = IsBound-accepted u b in
    rw in_pair (
      rw named (
        rw (Fresh-any seen u fresh)
          (rw b.nonce (valid_from-of (u.name ∷ seen) us (zip_Fresh seen u us h d) ds))))

pair_limit : (us : List OwnedUnit) → All IsBound us → Distinct us → length us ≤ 2
pair_limit [] b d = omega arith
pair_limit (u ∷ []) b d = omega arith
pair_limit (u ∷ v ∷ []) b d = omega arith
pair_limit (u ∷ v ∷ x ∷ us) (bu, (bv, (bx, b))) ((vu, (xu, _)), ((xv, _), _)) =
    absurd (ground (arith, bu.rank, bv.rank, bx.rank, bu.name, bv.name, bx.name))

-- `validUnits` accepts a list of new units exactly when each one is bound to rank 0 or rank 1 under
-- that rank's service name with a 32-digit hexadecimal nonce and no name stands twice.
pub valid_units_iff :
    (us : List OwnedUnit) → (valid_units us false ≡ ok tt) ↔ (All IsBound us × Distinct us)
unfolding valid_units
valid_units_iff us = (
  λ h.
      let (each, distinct) = valid_from-Fresh [] us h in
      (All-map _ _ (λ v p. p.0) us each, distinct),
  λ p. valid_from-of [] us (All-map _ _ (λ v b. (b, tt)) us p.0) p.1,
)

-- A list of new units that `validUnits` accepts has at most two units.
pub valid_units-length-le : (us : List OwnedUnit) → valid_units us false ≡ ok tt → length us ≤ 2
valid_units-length-le us h =
    let (each, distinct) = (valid_units_iff us).0 h in pair_limit us each distinct
