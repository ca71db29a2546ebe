-- ===== src/Cluster/Units/Identity.antt =====
-- When `verifyUnit` takes an active unit for the pair's own.
use mathlib.Core.List.{Memᴰ}
use strix_halo_cluster_glm.Base.{
  String, List, [], ◌∷◌, ◌≡◌, sym, ap, ◌∙◌, ◌⊎◌, inl, inr, ◌↔◌, refl, arith, true, false, ok, ◌==◌,
  eq_iff, is_hex32, sprint, Bool-cases, fields, trim_quotes,
}
use strix_halo_cluster_glm.Cluster.Owner.{OwnedUnit}
use strix_halo_cluster_glm.Cluster.Units.{Fields, field, unit_active, verify_unit, nonce_found}

-- The unit runs under the identity that the owner recorded.
pub record Owns (u : OwnedUnit) (m : Fields) : Type 0 where
  pub nonce : is_hex32 u.nonce ≡ true
  pub invocation : is_hex32 (field "InvocationID" m) ≡ true
  pub marked :
      (s : String) × Memᴰ s (fields (field "Environment" m))
      × (trim_quotes s ≡ sprint ("CIRU_OWNER_NONCE=" ∷ u.nonce ∷ []))
  pub same : (u.invocation_id ≡ "") ⊎ (field "InvocationID" m ≡ u.invocation_id)

nonce_found-Mem :
    (nonce : String) (ss : List String)
    → nonce_found nonce ss ≡ true
    → (s : String) × Memᴰ s ss × (trim_quotes s ≡ sprint ("CIRU_OWNER_NONCE=" ∷ nonce ∷ []))
unfolding nonce_found
nonce_found-Mem nonce [] h = cc
nonce_found-Mem nonce (s ∷ ss) h =
    elim (Bool-cases (trim_quotes s == sprint ("CIRU_OWNER_NONCE=" ∷ nonce ∷ []))) [
      | inl e ↦ (s, Memᴰ.head refl, (eq_iff _ _).0 e)
      | inr e ↦ let (s', m, e') = nonce_found-Mem nonce ss (ground arith) in (s', Memᴰ.tail m, e')
    ]

Mem-nonce_found :
    (nonce : String) (ss : List String) (s : String)
    → Memᴰ s ss
    → trim_quotes s ≡ sprint ("CIRU_OWNER_NONCE=" ∷ nonce ∷ [])
    → nonce_found nonce ss ≡ true
unfolding nonce_found
Mem-nonce_found nonce [] s m h = elim m [ ]
Mem-nonce_found nonce (t ∷ ss) s (Memᴰ.head e) h = rw ((eq_iff _ _).1 (ap trim_quotes (sym e) ∙ h))
Mem-nonce_found nonce (t ∷ ss) s (Memᴰ.tail m) h = ground (arith, Mem-nonce_found nonce ss s m h)

verify_unit_sound :
    (u : OwnedUnit) (m : Fields) → verify_unit u m ≡ ok tt → (unit_active m ≡ false) ⊎ Owns u m
unfolding verify_unit
verify_unit_sound u m h = elim (Bool-cases (unit_active m)) [
  | inr e ↦ inl e
  | inl e ↦ inr (record {
    nonce = ground arith;
    invocation = ground arith;
    marked = nonce_found-Mem u.nonce (fields (field "Environment" m)) (ground arith);
    same =
        ground (arith, eq_iff u.invocation_id "", eq_iff (field "InvocationID" m) u.invocation_id);
  })
]

verify_unit_of_inactive :
    (u : OwnedUnit) (m : Fields) → unit_active m ≡ false → verify_unit u m ≡ ok tt
unfolding verify_unit
verify_unit_of_inactive u m e = rw e

verify_unit_complete : (u : OwnedUnit) (m : Fields) → Owns u m → verify_unit u m ≡ ok tt
unfolding verify_unit
verify_unit_complete u m o =
    let (s, listed, marked) = o.marked in
    ground (
      arith,
      o.nonce,
      o.invocation,
      o.same,
      eq_iff u.invocation_id "",
      eq_iff (field "InvocationID" m) u.invocation_id,
      Mem-nonce_found u.nonce (fields (field "Environment" m)) s listed marked,
    )

-- `verifyUnit` accepts exactly the units that are not active and those that run under the recorded
-- identity: both identifiers are 32 hexadecimal digits, a word of the environment carries the nonce,
-- and the InvocationID is the recorded one where one is recorded.
pub verify_unit_iff :
    (u : OwnedUnit) (m : Fields) → (verify_unit u m ≡ ok tt) ↔ ((unit_active m ≡ false) ⊎ Owns u m)
verify_unit_iff u m = (
  verify_unit_sound u m,
  λ d. elim d [ inl e ↦ verify_unit_of_inactive u m e | inr o ↦ verify_unit_complete u m o ],
)
