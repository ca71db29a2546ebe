-- ===== src/Lifecycle/Operation/Single.antt =====
-- Requests to start and to stop against the goroutines that they begin.
use strix_halo_cluster_glm.Base.{
  String, List, [], ◌∷◌, ◌≡◌, ◌≢◌, refl, sym, ap, ◌↔◌, length, ◌≤◌, ◌∙◌, subst, arith, none, some,
  eq_iff, ne_of_test,
}
use strix_halo_cluster_glm.Base.Integer.{ℤ}
use strix_halo_cluster_glm.Lifecycle.Snapshot.{Lifecycle}
use strix_halo_cluster_glm.Lifecycle.Operation.{
  idle, set_transient, set_detail, finish_operation, begin_start, begin_stop,
}

-- The goroutines that run, each with the name of its operation.
pub record Gateway : Type 0 where
  pub lifecycle : Lifecycle
  pub running : List String

-- What can happen: a request that is admitted begins its goroutine, and a goroutine sets the detail
-- or finishes. A request that is refused changes nothing.
pub data Move (drain : ℤ) : Gateway → Gateway → Type 0 where
  started :
      (m m' : Lifecycle) (ops : List String)
      → begin_start m ≡ some m'
      → Move drain
          (record { lifecycle = m; running = ops })
          (record { lifecycle = m'; running = "start" ∷ ops })
  stopped :
      (m m' : Lifecycle) (ops : List String)
      → begin_stop drain m ≡ some m'
      → Move drain
          (record { lifecycle = m; running = ops })
          (record { lifecycle = m'; running = "stop" ∷ ops })
  detailed :
      (m : Lifecycle) (op : String) (ops : List String) (detail : String)
      → Move drain
          (record { lifecycle = m; running = op ∷ ops })
          (record { lifecycle = set_detail detail m; running = op ∷ ops })
  finished :
      (m : Lifecycle) (op : String) (ops : List String) (detail last_error readiness : String)
      → Move drain
          (record { lifecycle = m; running = op ∷ ops })
          (record { lifecycle = finish_operation detail last_error readiness m; running = ops })

pub data Reaches (drain : ℤ) : Gateway → Type 0 where
  begun : Reaches drain (record { lifecycle = idle; running = [] })
  moved : (g g' : Gateway) → Reaches drain g → Move drain g g' → Reaches drain g'

-- Nothing runs and no operation is noted, or the one that runs is noted with a transient state.
unfoldable pub Single : Lifecycle → List String → Type 0
Single m [] = (m.operation ≡ "") × (m.transient ≡ "")
Single m (op ∷ []) = (m.operation ≡ op) × (op ≢ "") × (m.transient ≢ "")
Single m (op ∷ op' ∷ ops) = ⊥

refused-set_transient :
    (op state detail : String) (m m' : Lifecycle)
    → m.operation ≢ ""
    → set_transient op state detail m ≢ some m'
unfolding set_transient
refused-set_transient op state detail m m' busy h = ground (arith, eq_iff m.operation "")

-- A request behind which one goroutine more runs.
set_transient-Single :
    (op state detail : String) (m m' : Lifecycle) (ops : List String)
    → op ≢ ""
    → state ≢ ""
    → Single m ops
    → set_transient op state detail m ≡ some m'
    → Single m' (op ∷ ops)
unfolding Single set_transient
set_transient-Single op state detail m m' [] named transient (quiet, _) h =
    let same = some_of (ground (arith, eq_iff m.operation "")) in
    (
      ap (λ z. z.operation) (sym same),
      named,
      subst (λ (m : Lifecycle). m.transient ≢ "") same transient,
    )
  where
    some_of :
        some (record m { operation = op; transient = state; detail = detail; last_error = "" })
          ≡ some m'
        → record m { operation = op; transient = state; detail = detail; last_error = "" } ≡ m'
    some_of e = cc
set_transient-Single op state detail m m' (o ∷ []) named transient (noted, full, _) h =
    absurd (refused-set_transient op state detail m m' (λ e. full (sym noted ∙ e)) h)
set_transient-Single op state detail m m' (o ∷ o' ∷ os) named transient held h = absurd held

abbrev IsSingle : Gateway → Type 0
IsSingle g = Single g.lifecycle g.running

module _ (drain : ℤ) where
  Move-IsSingle : (g g' : Gateway) → Move drain g g' → IsSingle g → IsSingle g'
  unfolding Single begin_start begin_stop set_detail finish_operation
  Move-IsSingle g g' (started m m' ops h) held =
      set_transient-Single _ _ _ m m' ops (ne_of_test "start" "" refl)
        (ne_of_test "STARTING" "" refl) held h
  Move-IsSingle g g' (stopped m m' ops h) held =
      set_transient-Single _ _ _ m m' ops (ne_of_test "stop" "" refl)
        (ne_of_test "STOPPING" "" refl) held h
  Move-IsSingle g g' (detailed m op [] detail) held = held
  Move-IsSingle g g' (detailed m op (o ∷ os) detail) held = absurd held
  Move-IsSingle g g' (finished m op [] detail last_error readiness) held = (refl, refl)
  Move-IsSingle g g' (finished m op (o ∷ os) detail last_error readiness) held = absurd held

  Reaches-IsSingle : (g : Gateway) → Reaches drain g → IsSingle g
  unfolding Single
  Reaches-IsSingle g begun = (refl, refl)
  Reaches-IsSingle g (moved g₀ g' before move) =
      Move-IsSingle g₀ g move (Reaches-IsSingle g₀ before)

  refuses_iff :
      (op state detail : String) (m : Lifecycle) (ops : List String)
      → Single m ops
      → (set_transient op state detail m ≡ none) ↔ (ops ≢ [])
  unfolding Single set_transient
  refuses_iff op state detail m [] (quiet, _) =
      (λ h _. ground (arith, h, quiet, eq_iff m.operation ""), λ h. absurd (h refl))
  refuses_iff op state detail m (o ∷ []) (noted, full, _) =
      (λ h e. cc, λ h. ground (arith, noted, full, eq_iff m.operation "", eq_iff o ""))
  refuses_iff op state detail m (o ∷ o' ∷ os) held = absurd held

  quiet_iff : (m : Lifecycle) (ops : List String) → Single m ops → (m.transient ≡ "") ↔ (ops ≡ [])
  unfolding Single
  quiet_iff m [] (_, quiet) = (λ _. refl, λ _. quiet)
  quiet_iff m (o ∷ []) (_, _, loud) = (λ h. absurd (loud h), λ h. cc)
  quiet_iff m (o ∷ o' ∷ os) held = absurd held

  Single-length-le : (m : Lifecycle) (ops : List String) → Single m ops → length ops ≤ 1
  unfolding Single
  Single-length-le m [] held = omega arith
  Single-length-le m (o ∷ []) held = omega arith
  Single-length-le m (o ∷ o' ∷ os) held = absurd held

  -- However requests to start and to stop and the steps of their goroutines follow one another, at
  -- most one operation runs; a request is refused exactly while one runs, whichever it is; and the
  -- transient state is empty exactly while none runs.
  pub one_operation :
      (g : Gateway)
      → Reaches drain g
      → (length g.running ≤ 1)
        × ((begin_start g.lifecycle ≡ none) ↔ (g.running ≢ []))
        × ((begin_stop drain g.lifecycle ≡ none) ↔ (g.running ≢ []))
        × ((g.lifecycle.transient ≡ "") ↔ (g.running ≡ []))
  unfolding begin_start begin_stop
  one_operation g r =
      let held = Reaches-IsSingle g r in
      (
        Single-length-le g.lifecycle g.running held,
        refuses_iff _ _ _ g.lifecycle g.running held,
        refuses_iff _ _ _ g.lifecycle g.running held,
        quiet_iff g.lifecycle g.running held,
      )
