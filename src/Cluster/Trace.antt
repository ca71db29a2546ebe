-- ===== src/Cluster/Trace.antt =====
-- What a computation of the controller adds to the history, and what it leaves alone.
pub use strix_halo_cluster_glm.Base.{ok-injective}
use strix_halo_cluster_glm.Base.{
  String, List, [], ◌∷◌, ◌++◌, Bool, true, false, ◌≡◌, refl, ◌∙◌, sym, ap, subst, Result, ok, err,
  All, All-append, append_assoc, Bool-cases, inl, inr, not, ◌&&◌,
}
use strix_halo_cluster_glm.Base.Integer.{ℤ, pos, int_eq}
use strix_halo_cluster_glm.Cluster.Owner.{OwnedUnit}
use strix_halo_cluster_glm.Cluster.Host.{
  World, Host, Action, ran, M, pure, lift, attempt, when, refuse_if, continue, command, ◌>>=◌, ◌>>◌,
}
use strix_halo_cluster_glm.Cluster.Units.{show_args, unit, unit_fields}

-- `h'` comes behind `h` by actions that all satisfy `P`, with the files untouched.
pub record Extends (P : Action → Type 0) (h h' : Host) : Type 0 where
  pub added : List Action
  pub history : h'.history ≡ added ++ h.history
  pub each : All P added
  pub owner : h'.owner ≡ h.owner
  pub shared : h'.shared ≡ h.shared
  pub poison : h'.poison ≡ h.poison

module _ {P : Action → Type 0} where
  pub Extends-refl : (h : Host) → Extends P h h
  Extends-refl h = record {
    added = [];
    history = refl;
    each = tt;
    owner = refl;
    shared = refl;
    poison = refl;
  }

  pub Extends-trans : {a b c : Host} → Extends P a b → Extends P b c → Extends P a c
  Extends-trans f g = record {
    added = g.added ++ f.added;
    history = g.history ∙ ap (λ l. g.added ++ l) f.history ∙ sym (append_assoc g.added f.added _);
    each = All-append P g.added f.added g.each f.each;
    owner = g.owner ∙ f.owner;
    shared = g.shared ∙ f.shared;
    poison = g.poison ∙ f.poison;
  }

-- Every run of `m` adds only actions that satisfy `P` and touches no file, and what it gives back
-- satisfies `Q`.
pub record Yields (P : Action → Type 0) {A : Type 0} (Q : A → Type 0) (m : M A) : Type 0 where
  pub run : (h : Host) → Extends P h (m h).1
  pub result : (h : Host) (a : A) → (m h).0 ≡ ok a → Q a

abbrev pub Only : (Action → Type 0) → {A : Type 0} → M A → Type 0
Only P m = Yields P (λ _. Unit {0}) m

module _ {P : Action → Type 0} {A B : Type 0} {R : B → Type 0} where
  continue-Extends :
      (r : Result A) (f : A → M B) (h : Host)
      → ((a : A) → r ≡ ok a → Yields P R (f a))
      → Extends P h (continue r f h).1
  continue-Extends (ok a) f h k = (k a refl).run h
  continue-Extends (err e) f h k = Extends-refl h

  continue-result :
      (r : Result A) (f : A → M B) (h : Host) (b : B)
      → ((a : A) → r ≡ ok a → Yields P R (f a))
      → (continue r f h).0 ≡ ok b
      → R b
  continue-result (ok a) f h b k e = (k a refl).result h b e
  continue-result (err x) f h b k e = cc

  pub bind-Yields :
      {Q : A → Type 0} (m : M A) (f : A → M B)
      → Yields P Q m
      → ((a : A) → Q a → Yields P R (f a))
      → Yields P R (m >>= f)
  unfolding ◌>>=◌
  bind-Yields m f y k = record {
    run = λ h.
        Extends-trans (y.run h) (continue-Extends (m h).0 f (m h).1 (λ a e. k a (y.result h a e)));
    result = λ h b e. continue-result (m h).0 f (m h).1 b (λ a e'. k a (y.result h a e')) e;
  }

module _ {P : Action → Type 0} {A : Type 0} where
  pub pure-Yields : {Q : A → Type 0} (a : A) → Q a → Yields P Q (pure a)
  pure-Yields {Q} a q = record { run = Extends-refl; result = λ h b e. subst Q (ok-injective e) q }

  pub lift-Only : (r : Result A) → Only P (lift r)
  lift-Only r = record { run = Extends-refl; result = λ h a e. tt }

  pub weaken : {Q : A → Type 0} (m : M A) → Yields P Q m → Only P m
  weaken m y = record { run = y.run; result = λ h a e. tt }

  pub attempt-Only : (m : M A) → Only P m → Only P (attempt m)
  attempt-Only m y = record { run = y.run; result = λ h a e. tt }

pub then-Only :
    {P : Action → Type 0} {B : Type 0} (m : M (Unit {0})) (k : M B)
    → Only P m
    → Only P k
    → Only P (m >> k)
unfolding ◌>>◌
then-Only m k y z = bind-Yields m (λ _. k) y (λ _ _. z)

pub when-Only : {P : Action → Type 0} (b : Bool) (m : M (Unit {0})) → Only P m → Only P (when b m)
when-Only true m y = y
when-Only false m y = pure-Yields tt tt

pub refuse_if-Only : {P : Action → Type 0} (b : Bool) (e : String) → Only P (refuse_if b e)
refuse_if-Only true e = record { run = Extends-refl; result = λ h a e'. tt }
refuse_if-Only false e = pure-Yields tt tt

-- What `m >>= f` gives back, from the parts.
module _ {A B : Type 0} where
  pub bind-eq-ok :
      (m : M A) (f : A → M B) (h : Host) {b : B}
      → ((m >>= f) h).0 ≡ ok b
      → (a : A) × ((m h).0 ≡ ok a) × ((m >>= f) h ≡ f a (m h).1)
  unfolding ◌>>=◌
  bind-eq-ok m f h e = go (m h).0 (m h).1 e
    where
      go :
          (r : Result A) (h' : Host) {b : B}
          → (continue r f h').0 ≡ ok b
          → (a : A) × (r ≡ ok a) × (continue r f h' ≡ f a h')
      go (ok a) h' e = (a, refl, refl)
      go (err x) h' e = cc

  pub bind_of_ok :
      (m : M A) (f : A → M B) (h : Host) {a : A} → (m h).0 ≡ ok a → (m >>= f) h ≡ f a (m h).1
  unfolding ◌>>=◌
  bind_of_ok m f h e = rw (e, continue)

  pub bind_of_err :
      (m : M A) (f : A → M B) (h : Host) {e : String}
      → (m h).0 ≡ err e
      → (m >>= f) h ≡ (err e, (m h).1)
  unfolding ◌>>=◌
  bind_of_err m f h e = rw (e, continue)

pub then-eq-ok :
    {B : Type 0} (m : M (Unit {0})) (k : M B) (h : Host) {b : B}
    → ((m >> k) h).0 ≡ ok b
    → ((m h).0 ≡ ok tt) × ((m >> k) h ≡ k (m h).1)
unfolding ◌>>◌
then-eq-ok m k h e = let (_, done, same) = bind-eq-ok m (λ _. k) h e in (done, same)

pub then_of_ok :
    {B : Type 0} (m : M (Unit {0})) (k : M B) (h : Host) → (m h).0 ≡ ok tt → (m >> k) h ≡ k (m h).1
unfolding ◌>>◌
then_of_ok m k h e = bind_of_ok m (λ _. k) h e

pub then_of_err :
    {B : Type 0} (m : M (Unit {0})) (k : M B) (h : Host) {e : String}
    → (m h).0 ≡ err e
    → (m >> k) h ≡ (err e, (m h).1)
unfolding ◌>>◌
then_of_err m k h e = bind_of_err m (λ _. k) h e

module _ {P : Action → Type 0} (w : World) where
  pub command-Only :
      (rank : ℤ) (args : List String) → P (ran rank args) → Only P (command w rank args)
  unfolding command
  command-Only rank [] p = record { run = λ h. Extends-refl h; result = λ h a e. tt }
  command-Only rank (name ∷ args) p = record {
    run = λ h. elim (Bool-cases (not (int_eq rank (pos 0)) && not (int_eq rank (pos 1)))) [
      | inl e ↦ rw e (Extends-refl h)
      | inr e ↦ rw e (record {
        added = ran rank (name ∷ args) ∷ [];
        history = refl;
        each = (p, tt);
        owner = refl;
        shared = refl;
        poison = refl;
      })
    ];
    result = λ h a e. tt;
  }

  pub unit-Only : (u : OwnedUnit) → P (ran u.rank (show_args u.name)) → Only P (unit w u)
  unfolding unit
  unit-Only u p =
      bind-Yields (command w u.rank (show_args u.name)) _ (command-Only u.rank (show_args u.name) p)
        (λ out _. lift-Only (unit_fields out))
