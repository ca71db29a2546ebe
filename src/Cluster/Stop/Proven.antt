-- ===== src/Cluster/Stop/Proven.antt =====
-- What `stopUnits` guarantees: it refuses before the first stop, it touches only the given units, and
-- success means that every unit was seen inactive after the last stop.
use mathlib.Core.List.{Memᴰ}
use strix_halo_cluster_glm.Base.{
  String, List, [], ◌∷◌, ◌++◌, ◌≡◌, refl, sym, ap, ◌∙◌, subst, ◌⊎◌, inl, inr, arith, Bool, false,
  Result, ok, err, All, All-map,
}
use strix_halo_cluster_glm.Base.Integer.{pos}
use strix_halo_cluster_glm.Cluster.Owner.{OwnedUnit}
use strix_halo_cluster_glm.Cluster.Host.{
  World, Host, Action, ran, M, pure, lift, attempt, ◌>>=◌, ◌>>◌,
}
use strix_halo_cluster_glm.Cluster.Units.{
  Fields, show_args, stop_args, unit, unit_active, inspect_each, inspect_all, valid_units,
}
use strix_halo_cluster_glm.Cluster.Units.Frontend.{valid_units-frontend}
use strix_halo_cluster_glm.Cluster.Trace.{
  ok-injective, Extends, bind-eq-ok, then-eq-ok, then_of_err,
}
use strix_halo_cluster_glm.Cluster.Stop.{
  frontend, prove_stopped, stop_frontend, stop_ranks, stop_units, left_over, joined,
}
use strix_halo_cluster_glm.Cluster.Stop.Actions.{
  Queries, Stops, inspect_all-Only, prove_stopped-Only, stop_units-Only,
}

-- A query of one of the units.
abbrev pub IsQuery : List OwnedUnit → Action → Type 0
IsQuery us a = (u : OwnedUnit) × Memᴰ u us × (a ≡ ran u.rank (show_args u.name))

-- A query of one of the units, or its stop, on the unit's own rank.
abbrev pub Touches : List OwnedUnit → Action → Type 0
Touches us a =
    (u : OwnedUnit) × Memᴰ u us
    × ((a ≡ ran u.rank (show_args u.name)) ⊎ (a ≡ ran u.rank (stop_args u.name)))

All-both {ℓ κ} :
    {A : Type ℓ} (P Q : A → Type κ) (xs : List A) → All P xs → All Q xs → All (λ x. P x × Q x) xs
All-both P Q [] p q = tt
All-both P Q (x ∷ xs) (p, ps) (q, qs) = ((p, q), All-both P Q xs ps qs)

All-Mem {ℓ} : {A : Type ℓ} (xs : List A) → All (λ x. Memᴰ x xs) xs
All-Mem [] = tt
All-Mem (x ∷ xs) = (Memᴰ.head refl, All-map _ _ (λ y m. Memᴰ.tail m) xs (All-Mem xs))

IsQuery-Queries : (us : List OwnedUnit) → Queries (IsQuery us) us
IsQuery-Queries us = All-map _ _ (λ u m. (u, m, refl)) us (All-Mem us)

Touches-Queries : (us : List OwnedUnit) → Queries (Touches us) us
Touches-Queries us = All-map _ _ (λ u m. (u, m, inl refl)) us (All-Mem us)

-- The stop of the frontend runs on rank 0, which is its own.
Touches-Stops :
    (us : List OwnedUnit) → All (λ u. u.name ≡ frontend → u.rank ≡ pos 0) us → Stops (Touches us) us
Touches-Stops us near =
    All-map _ _
      (λ u (m, home).
        ((u, m, inr refl), λ e. (u, m, inr (ap (λ r. ran r (stop_args u.name)) (sym (home e))))))
      us (All-both _ _ us (All-Mem us) near)

abbrev rest_of : World → List OwnedUnit → M (Unit {0})
rest_of w us =
    stop_ranks w us >>= λ failures. prove_stopped w us >>= λ left. lift (joined (failures ++ left))

-- Where the inspection of the whole set fails, because of one unit that cannot be read or is not the
-- pair's, `stopUnits` returns its error and stops none: it has issued queries of the units only.
pub stop_units_refused :
    (w : World) (us : List OwnedUnit) (legacy : Bool) (h : Host) (e : String)
    → (inspect_all w us legacy h).0 ≡ err e
    → ((stop_units w us legacy h).0 ≡ err e) × Extends (IsQuery us) h (stop_units w us legacy h).1
unfolding stop_units
stop_units_refused w us legacy h e refused =
    let same =
      then_of_err (inspect_all w us legacy)
        (stop_frontend w us >> (inspect_all w us legacy >> rest_of w us)) h refused in
    rw same (refl, (inspect_all-Only w us legacy (IsQuery-Queries us)).run h)

-- Every command of `stopUnits` is a query or a stop of one of the units that it was given, on that
-- unit's own rank, whatever ranks and names the units claim, and it leaves the owner file, the shared
-- receipt and the poison marker as they are.
pub stop_units-Touches :
    (w : World) (us : List OwnedUnit) (legacy : Bool) (h : Host)
    → Extends (Touches us) h (stop_units w us legacy h).1
unfolding inspect_all
stop_units-Touches w us legacy h = go ((inspect_all w us legacy h).0) refl
  where
    go :
        (r : Result (Unit {0}))
        → (inspect_all w us legacy h).0 ≡ r
        → Extends (Touches us) h (stop_units w us legacy h).1
    go (err e) refused =
        let queried = (stop_units_refused w us legacy h e refused).1 in
        record {
          added = queried.added;
          history = queried.history;
          each = All-map _ _ (λ a (u, m, q). (u, m, inl q)) queried.added queried.each;
          owner = queried.owner;
          shared = queried.shared;
          poison = queried.poison;
        }
    go (ok _) passed =
        let valid = (then-eq-ok (lift (valid_units us legacy)) (inspect_each w us) h passed).0 in
        let home = valid_units-frontend us legacy valid in
        (stop_units-Only (Touches us) w us legacy (Touches-Queries us) (Touches-Stops us home)).run
          h

-- The unit answered, after the last action that `P` does not admit, that it is not active.
pub record SeenStopped (P : Action → Type 0) (w : World) (final : Host) (u : OwnedUnit)
    : Type 0 where
  pub at : Host
  pub found : Fields
  pub answer : (unit w u at).0 ≡ ok found
  pub inactive : unit_active found ≡ false
  pub later : Extends P (unit w u at).1 final

left_over-nil :
    (u : OwnedUnit) (r : Result Fields) (rest : List String)
    → left_over u r ++ rest ≡ []
    → (m : Fields) × (r ≡ ok m) × (unit_active m ≡ false) × (rest ≡ [])
unfolding left_over
left_over-nil u (err e) rest h = cc
left_over-nil u (ok m) rest h = (m, refl, ground arith, ground arith)

module _ (P : Action → Type 0) (w : World) where
  prove_stopped-cons :
      (u : OwnedUnit) (us : List OwnedUnit) (h : Host)
      → (prove_stopped w (u ∷ us) h).0 ≡ ok []
      → (m : Fields) × ((unit w u h).0 ≡ ok m)
        × (unit_active m ≡ false)
        × ((prove_stopped w us (unit w u h).1).0 ≡ ok [])
        × ((prove_stopped w (u ∷ us) h).1 ≡ (prove_stopped w us (unit w u h).1).1)
  unfolding prove_stopped
  prove_stopped-cons u us h e =
      let tail : Result Fields → M (List String) =
        λ r. prove_stopped w us >>= λ rest. pure (left_over u r ++ rest) in
      let (r, asked, same) = bind-eq-ok (attempt (unit w u)) tail h e in
      let here = (unit w u h).1 in
      let (rest, proved, same') =
        bind-eq-ok (prove_stopped w us) (λ rest. pure (left_over u r ++ rest)) here
          (ap (λ x. x.0) (sym same) ∙ e) in
      let nothing_left : left_over u r ++ rest ≡ [] =
        ok-injective (ap (λ x. x.0) (sym same') ∙ ap (λ x. x.0) (sym same) ∙ e) in
      let (m, answered, inactive, none_left) = left_over-nil u r rest nothing_left in
      (
        m,
        ok-injective asked ∙ answered,
        inactive,
        proved ∙ ap ok none_left,
        ap (λ x. x.1) same ∙ ap (λ x. x.1) same',
      )

  prove_stopped-SeenStopped :
      (us : List OwnedUnit) (h : Host)
      → Queries P us
      → (prove_stopped w us h).0 ≡ ok []
      → All (SeenStopped P w (prove_stopped w us h).1) us
  prove_stopped-SeenStopped [] h q e = tt
  prove_stopped-SeenStopped (u ∷ us) h (q, qs) e =
      let (m, answer, inactive, rest, same) = prove_stopped-cons u us h e in
      subst (λ x. All (SeenStopped P w x) (u ∷ us)) (sym same)
        (
          record {
            at = h;
            found = m;
            answer = answer;
            inactive = inactive;
            later = (prove_stopped-Only w us qs).run (unit w u h).1;
          },
          prove_stopped-SeenStopped us (unit w u h).1 qs rest,
        )

joined-ok : (es : List String) → joined es ≡ ok tt → es ≡ []
joined-ok [] h = refl
joined-ok (e ∷ es) h = cc

append-nil_right : (xs ys : List String) → xs ++ ys ≡ [] → ys ≡ []
append-nil_right [] ys h = h
append-nil_right (x ∷ xs) ys h = cc

-- Where `stopUnits` succeeds, every unit that it was given answered, after the last stop, that it is
-- not active: behind that answer there are only queries of these units.
pub stop_units-SeenStopped :
    (w : World) (us : List OwnedUnit) (legacy : Bool) (h : Host)
    → (stop_units w us legacy h).0 ≡ ok tt
    → All (SeenStopped (IsQuery us) w (stop_units w us legacy h).1) us
unfolding stop_units
stop_units-SeenStopped w us legacy h e =
    let again = inspect_all w us legacy >> rest_of w us in
    let (_, s₁) = then-eq-ok (inspect_all w us legacy) (stop_frontend w us >> again) h e in
    let h₁ = (inspect_all w us legacy h).1 in
    let e₁ = ap (λ x. x.0) (sym s₁) ∙ e in
    let (_, s₂) = then-eq-ok (stop_frontend w us) again h₁ e₁ in
    let h₂ = (stop_frontend w us h₁).1 in
    let e₂ = ap (λ x. x.0) (sym s₂) ∙ e₁ in
    let (_, s₃) = then-eq-ok (inspect_all w us legacy) (rest_of w us) h₂ e₂ in
    let h₃ = (inspect_all w us legacy h₂).1 in
    let e₃ = ap (λ x. x.0) (sym s₃) ∙ e₂ in
    let (failures, _, s₄) =
      bind-eq-ok (stop_ranks w us)
        (λ failures. prove_stopped w us >>= λ left. lift (joined (failures ++ left))) h₃ e₃ in
    let h₄ = (stop_ranks w us h₃).1 in
    let e₄ = ap (λ x. x.0) (sym s₄) ∙ e₃ in
    let (left, proved, s₅) =
      bind-eq-ok (prove_stopped w us) (λ left. lift (joined (failures ++ left))) h₄ e₄ in
    let nothing = append-nil_right failures left (joined-ok _ (ap (λ x. x.0) (sym s₅) ∙ e₄)) in
    let final : (stop_units w us legacy h).1 ≡ (prove_stopped w us h₄).1 =
      ap (λ x. x.1) (s₁ ∙ s₂ ∙ s₃ ∙ s₄ ∙ s₅) in
    rw final
      (prove_stopped-SeenStopped (IsQuery us) w us h₄ (IsQuery-Queries us) (proved ∙ ap ok nothing))
